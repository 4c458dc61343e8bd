-- ===== src/Jitter/Handle.antt =====
-- server/sfu/jitter.go: the answer of the jitter handler to a NACK.
use peer_calls.Base.{
  ℕ, ◌<◌, ◌≡◌, refl, sym, ap, ◌∙◌, Option, none, some, List, [], ◌∷◌, ◌++◌, Bool, false, ◌||◌,
  arith,
}
use mathlib.Core.List.{append_assoc, append-nil}
use peer_calls.Nack.{Packet, Nack, NackPair, create_nack_pair}
use peer_calls.Nack.Create.{contains, create_nack_pair-names}
use peer_calls.Nack.Names.{names}
use peer_calls.Jitter.{Buffers, look_up_pairs, add_actual, passed_on, handle_nack, nack_handler}
use peer_calls.Jitter.Found.{
  found, missing, look_up-found, found-append, missing-append, contains-append, Rises,
  missing-Rises, Rises-FitsPair,
}

-- Whether one of the pairs names a number.
abbrev pub names_any : List NackPair → ℕ → Bool
names_any [] sn = false
names_any (p ∷ ps) sn = names p sn || names_any ps sn

abbrev pub nacks_of : Option Nack → List NackPair
nacks_of none = []
nacks_of (some n) = n.nacks

names_any-append :
    (ps qs : List NackPair) (sn : ℕ)
    → names_any (ps ++ qs) sn ≡ (names_any ps sn || names_any qs sn)
names_any-append [] qs sn = refl
names_any-append (p ∷ ps) qs sn = ground (arith, names_any-append ps qs sn)

nacks_of-passed_on : (n : Nack) (ps : List NackPair) → nacks_of (passed_on n ps) ≡ ps
unfolding passed_on
nacks_of-passed_on n [] = refl
nacks_of-passed_on n (p ∷ ps) = refl

add_actual-names :
    (base : ℕ) (sns : List ℕ) (ps : List NackPair) (sn : ℕ)
    → base < 65536
    → sn < 65536
    → Rises base 0 sns
    → names_any (add_actual sns ps) sn ≡ (names_any ps sn || contains sns sn)
unfolding add_actual
add_actual-names base [] ps sn hb hn r = ground arith
add_actual-names base (h ∷ is) ps sn hb hn r =
    names_any-append ps (create_nack_pair (h ∷ is) ∷ []) sn
    ∙ ground (arith, create_nack_pair-names h is sn (Rises-FitsPair base (h ∷ is) hb r) hn)

module _ (packet_list : NackPair → List ℕ) where
  -- All numbers that a NACK asks for.
  abbrev pub requests : List NackPair → List ℕ
  requests [] = []
  requests (p ∷ ps) = packet_list p ++ requests ps

  -- What pion documents of `PacketList`: the packet id, then the numbers of the set bits, rising.
  abbrev pub ListsRise : List NackPair → Type 0
  ListsRise [] = Unit
  ListsRise (p ∷ ps) = (p.packet_id < 65536) × Rises p.packet_id 0 (packet_list p) × ListsRise ps

  look_up_pairs_step :
      (bs : Buffers) (ssrc : ℕ) (pair : NackPair) (pairs : List NackPair) (ps : List Packet)
      (ns : List NackPair)
      → look_up_pairs packet_list bs ssrc (pair ∷ pairs) (ps, ns)
        ≡ look_up_pairs packet_list bs ssrc pairs (
          ps ++ found bs ssrc (packet_list pair),
          add_actual (missing bs ssrc (packet_list pair)) ns,
        )
  unfolding look_up_pairs
  look_up_pairs_step bs ssrc pair pairs ps ns =
      ap
        (λ (r : List Packet × List ℕ).
          look_up_pairs packet_list bs ssrc pairs (r.0, add_actual r.1 ns))
        (look_up-found bs ssrc (packet_list pair) ps [])

  look_up_pairs-found :
      (bs : Buffers) (ssrc : ℕ) (pairs : List NackPair) (ps : List Packet) (ns : List NackPair)
      → (look_up_pairs packet_list bs ssrc pairs (ps, ns)).0 ≡ ps ++ found bs ssrc (requests pairs)
  look_up_pairs-found bs ssrc [] ps ns = unfold look_up_pairs in sym (append-nil ps)
  look_up_pairs-found bs ssrc (pair ∷ pairs) ps ns =
      let here = found bs ssrc (packet_list pair) in
      let rest = found bs ssrc (requests pairs) in
      ap (λ (r : List Packet × List NackPair). r.0) (look_up_pairs_step bs ssrc pair pairs ps ns)
      ∙ look_up_pairs-found bs ssrc pairs (ps ++ here)
          (add_actual (missing bs ssrc (packet_list pair)) ns)
      ∙ append_assoc ps here rest
      ∙ ap (λ (t : List Packet). ps ++ t)
          (sym (found-append bs ssrc (packet_list pair) (requests pairs)))

  look_up_pairs-names :
      (bs : Buffers) (ssrc : ℕ) (pairs : List NackPair) (ps : List Packet) (ns : List NackPair)
      (sn : ℕ)
      → sn < 65536
      → ListsRise pairs
      → names_any (look_up_pairs packet_list bs ssrc pairs (ps, ns)).1 sn
        ≡ (names_any ns sn || contains (missing bs ssrc (requests pairs)) sn)
  look_up_pairs-names bs ssrc [] ps ns sn hn h = unfold look_up_pairs in ground arith
  look_up_pairs-names bs ssrc (pair ∷ pairs) ps ns sn hn (hb, r, h) =
      let lost = missing bs ssrc (packet_list pair) in
      let rest = missing bs ssrc (requests pairs) in
      let split =
        ap (λ (l : List ℕ). contains l sn)
          (missing-append bs ssrc (packet_list pair) (requests pairs))
        ∙ contains-append lost rest sn in
      ap (λ (r : List Packet × List NackPair). names_any r.1 sn)
        (look_up_pairs_step bs ssrc pair pairs ps ns)
      ∙ look_up_pairs-names bs ssrc pairs (ps ++ found bs ssrc (packet_list pair))
          (add_actual lost ns) sn hn h
      ∙ ground (
        arith,
        split,
        add_actual-names pair.packet_id lost ns sn hb hn
            (missing-Rises bs ssrc pair.packet_id 0 (packet_list pair) r),
      )

  -- Where `PacketList` lists numbers that rise from the packet id, by at most 16, the handler with
  -- a buffer answers a NACK with the packets that its buffers have, in the order of the request.
  -- What it passes on names exactly the requested numbers that the buffers do not have.
  pub handle_nack_answers :
      (bs : Buffers) (nack : Nack) (sn : ℕ)
      → sn < 65536
      → ListsRise nack.nacks
      → let (packets, upstream) = handle_nack packet_list (nack_handler bs) nack in
        (packets ≡ found bs nack.media_ssrc (requests nack.nacks))
        × (names_any (nacks_of upstream) sn
            ≡ contains (missing bs nack.media_ssrc (requests nack.nacks)) sn)
  unfolding handle_nack
  handle_nack_answers bs nack sn hn h = (
    look_up_pairs-found bs nack.media_ssrc nack.nacks [] [],
    ap (λ (ps : List NackPair). names_any ps sn)
          (nacks_of-passed_on nack
            (look_up_pairs packet_list bs nack.media_ssrc nack.nacks ([], [])).1)
        ∙ look_up_pairs-names bs nack.media_ssrc nack.nacks [] [] sn hn h,
  )
