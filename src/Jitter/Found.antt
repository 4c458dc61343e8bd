-- ===== src/Jitter/Found.antt =====
-- server/sfu/jitter.go: a request for packets, number by number, and what the buffers have of it.
use peer_calls.Base.{
  ℕ, suc, ◌+◌, ◌≤◌, ◌<◌, ◌≡◌, refl, ap, ◌∙◌, none, some, List, [], ◌∷◌, ◌++◌, ◌||◌, arith,
  Option-cases, inl, inr, All, length,
}
use peer_calls.Base.Word.{sub16}
use peer_calls.Nack.Create.{contains, FitsPair}
use mathlib.Core.List.{append_assoc, append-nil}
use peer_calls.Nack.{Packet}
use peer_calls.Jitter.{Buffers, get_packet, look_up}

-- The answer to a request, without accumulators: the packets that the buffers have, in the order
-- in which they are asked for, and the numbers that they do not have.
abbrev pub found : Buffers → ℕ → List ℕ → List Packet
found bs ssrc [] = []
found bs ssrc (sn ∷ sns) = elim (get_packet ssrc sn bs) [
  | none ↦ found bs ssrc sns
  | some p ↦ p ∷ found bs ssrc sns
]

abbrev pub missing : Buffers → ℕ → List ℕ → List ℕ
missing bs ssrc [] = []
missing bs ssrc (sn ∷ sns) = elim (get_packet ssrc sn bs) [
  | none ↦ sn ∷ missing bs ssrc sns
  | some p ↦ missing bs ssrc sns
]

pub look_up-found :
    (bs : Buffers) (ssrc : ℕ) (sns : List ℕ) (ps : List Packet) (ns : List ℕ)
    → look_up bs ssrc sns (ps, ns) ≡ (ps ++ found bs ssrc sns, ns ++ missing bs ssrc sns)
unfolding look_up
look_up-found bs ssrc [] ps ns = rw append-nil (rw append-nil)
look_up-found bs ssrc (sn ∷ sns) ps ns = elim (Option-cases (get_packet ssrc sn bs)) [
  | inl e ↦
      rw (e, found, missing)
        (look_up-found bs ssrc sns ps (ns ++ (sn ∷ []))
          ∙ ap (λ (t : List ℕ). (ps ++ found bs ssrc sns, t))
              (append_assoc ns (sn ∷ []) (missing bs ssrc sns)))
  | inr (p, e) ↦
      rw (e, found, missing)
        (look_up-found bs ssrc sns (ps ++ (p ∷ [])) ns
          ∙ ap (λ (t : List Packet). (t, ns ++ missing bs ssrc sns))
              (append_assoc ps (p ∷ []) (found bs ssrc sns)))
]

-- Every requested number is either answered or missing.
pub found_and_missing :
    (bs : Buffers) (ssrc : ℕ) (sns : List ℕ)
    → length (found bs ssrc sns) + length (missing bs ssrc sns) ≡ length sns
found_and_missing bs ssrc [] = omega arith
found_and_missing bs ssrc (sn ∷ sns) = ground (arith, found_and_missing bs ssrc sns)

pub found-append :
    (bs : Buffers) (ssrc : ℕ) (xs ys : List ℕ)
    → found bs ssrc (xs ++ ys) ≡ found bs ssrc xs ++ found bs ssrc ys
found-append bs ssrc [] ys = refl
found-append bs ssrc (x ∷ xs) ys = elim (Option-cases (get_packet ssrc x bs)) [
  | inl e ↦ rw (e, found) (found-append bs ssrc xs ys)
  | inr (p, e) ↦ rw (e, found) (ap (λ (t : List Packet). p ∷ t) (found-append bs ssrc xs ys))
]

pub missing-append :
    (bs : Buffers) (ssrc : ℕ) (xs ys : List ℕ)
    → missing bs ssrc (xs ++ ys) ≡ missing bs ssrc xs ++ missing bs ssrc ys
missing-append bs ssrc [] ys = refl
missing-append bs ssrc (x ∷ xs) ys = elim (Option-cases (get_packet ssrc x bs)) [
  | inl e ↦ rw (e, missing) (ap (λ (t : List ℕ). x ∷ t) (missing-append bs ssrc xs ys))
  | inr (p, e) ↦ rw (e, missing) (missing-append bs ssrc xs ys)
]

pub contains-append :
    (xs ys : List ℕ) (k : ℕ) → contains (xs ++ ys) k ≡ (contains xs k || contains ys k)
contains-append [] ys k = refl
contains-append (x ∷ xs) ys k = ground (arith, contains-append xs ys k)

-- Offsets from `base` that rise from `low` and stay within the 16 that a pair can name.
abbrev pub Rises : ℕ → ℕ → List ℕ → Type 0
Rises base low [] = Unit
Rises base low (i ∷ is) =
    (i < 65536) × (low ≤ sub16 i base) × (sub16 i base ≤ 16) × Rises base (suc (sub16 i base)) is

Rises-mono : (base a b : ℕ) (is : List ℕ) → a ≤ b → Rises base b is → Rises base a is
Rises-mono base a b [] h r = tt
Rises-mono base a b (i ∷ is) h (l, lo, hi, r) = (l, omega arith, hi, r)

pub missing-Rises :
    (bs : Buffers) (ssrc base low : ℕ) (is : List ℕ)
    → Rises base low is
    → Rises base low (missing bs ssrc is)
missing-Rises bs ssrc base low [] r = tt
missing-Rises bs ssrc base low (i ∷ is) (l, lo, hi, r) =
    elim (Option-cases (get_packet ssrc i bs)) [
      | inl e ↦ rw (e, missing) (l, lo, hi, missing-Rises bs ssrc base (suc (sub16 i base)) is r)
      | inr (p, e) ↦
          rw (e, missing)
            (Rises-mono base low _ _ (omega arith)
              (missing-Rises bs ssrc base (suc (sub16 i base)) is r))
    ]

Rises-within :
    (base h low : ℕ) (is : List ℕ)
    → base < 65536
    → h < 65536
    → sub16 h base < low
    → Rises base low is
    → All (λ i. (i < 65536) × (1 ≤ sub16 i h) × (sub16 i h ≤ 16)) is
Rises-within base h low [] hb hh lt r = tt
Rises-within base h low (i ∷ is) hb hh lt (l, lo, hi, r) = (
  (l, omega arith, omega arith),
  Rises-within base h (suc (sub16 i base)) is hb hh (omega arith) r,
)

-- So the numbers of such a list fit one pair, whichever of them comes first.
pub Rises-FitsPair : (base : ℕ) (is : List ℕ) → base < 65536 → Rises base 0 is → FitsPair is
Rises-FitsPair base [] hb r = tt
Rises-FitsPair base (i ∷ is) hb (l, lo, hi, r) =
    (l, Rises-within base i (suc (sub16 i base)) is hb l (omega arith) r)
