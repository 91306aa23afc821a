-- ===== src/Mux/Valid.antt =====
-- The invariant of a connection: what the id table points to, and how full its channels are.
use valyrium.Base.{
  ==_iff, All, All-append, Bool-cases, List, [], arith, delete, false, get_elem?, get_elem?-append,
  get_elem?-append_last, if◌then◌else◌, inl, inr, insert, length, lookup, lookup-delete,
  lookup-insert, none, number_key, refl, some, suc, zero, ℕ, ◌++◌, ◌==◌, ◌∙◌, ◌∷◌, ◌≡◌, ◌≤◌,
}
use valyrium.Mux.Conn.{Conn, Stream, accept_buffer, modify, new_stream, stream_buffer}

-- An id of the table leads to a stream of that id whose channel is not closed, and no channel
-- holds more than its capacity.
pub record IsTable (heap : List Stream) (streams : List (ℕ × ℕ)) : Type 0 where
  pub live :
      (id q : ℕ)
      → lookup id streams ≡ some q
      → (s : Stream) × (get_elem? heap q ≡ some s) × (s.id ≡ id) × (s.remote_closed ≡ false)
  pub buffers : All (λ s. length s.reads ≤ stream_buffer) heap

pub record IsValid (c : Conn) : Type 0 where
  pub table : IsTable c.heap c.streams
  pub queue : length c.accept ≤ accept_buffer

pub get_elem?-modify :
    (q p : ℕ) (f : Stream → Stream) (ss : List Stream)
    → get_elem? (modify q f ss) p
      ≡ (elim (get_elem? ss p) [ none ↦ none | some s ↦ some (if q == p then f s else s) ])
unfolding modify
get_elem?-modify q p f [] = refl
get_elem?-modify zero zero f (s ∷ ss) = refl
get_elem?-modify zero (suc p) f (s ∷ ss) = ground arith
get_elem?-modify (suc q) zero f (s ∷ ss) = ground arith
get_elem?-modify (suc q) (suc p) f (s ∷ ss) = ground (arith, get_elem?-modify q p f ss)

abbrev IsBuffered : Stream → Type 0
IsBuffered s = length s.reads ≤ stream_buffer

All-modify :
    (q : ℕ) (f : Stream → Stream) (ss : List Stream)
    → ((s : Stream) → get_elem? ss q ≡ some s → IsBuffered s → IsBuffered (f s))
    → All IsBuffered ss
    → All IsBuffered (modify q f ss)
unfolding modify
All-modify q f [] keep h = tt
All-modify zero f (s ∷ ss) keep h = (keep s refl h.0, h.1)
All-modify (suc q) f (s ∷ ss) keep h = (h.0, All-modify q f ss keep h.1)

-- What a write to a stream leaves as it was, apart from its end.
pub record Keeps (s s' : Stream) : Type 0 where
  pub same_id : s'.id ≡ s.id
  pub buffered : IsBuffered s → IsBuffered s'

pub delete-IsTable :
    (heap : List Stream) (streams : List (ℕ × ℕ)) (id : ℕ)
    → IsTable heap streams
    → IsTable heap (delete id streams)
delete-IsTable heap streams id t = record {
  live = λ j q e. t.live j q (ground (arith, lookup-delete id j streams));
  buffers = t.buffers;
}

module _ (heap : List Stream) (streams : List (ℕ × ℕ)) (q : ℕ) (f : Stream → Stream)
    (keeps : (s : Stream) → get_elem? heap q ≡ some s → Keeps s (f s))
    (t : IsTable heap streams) where
  kept_buffers : All IsBuffered (modify q f heap)
  kept_buffers = All-modify q f heap (λ s e h. (keeps s e).buffered h) t.buffers

  -- A write that leaves the end of the stream as it was.
  pub modify-IsTable :
      ((s : Stream) → get_elem? heap q ≡ some s → (f s).remote_closed ≡ s.remote_closed)
      → IsTable (modify q f heap) streams
  modify-IsTable open_still = record { live = found; buffers = kept_buffers }
    where
      found :
          (id p : ℕ)
          → lookup id streams ≡ some p
          → (s : Stream) × (get_elem? (modify q f heap) p ≡ some s)
            × (s.id ≡ id)
            × (s.remote_closed ≡ false)
      found id p e =
          let (s, at, i, r) = t.live id p e in
          elim (Bool-cases (q == p)) [
            | inl here ↦
                let at' : get_elem? heap q ≡ some s = rw ((==_iff q p).0 here) at in
                (
                  f s,
                  rw (get_elem?-modify q p f heap, at, here),
                  (keeps s at').same_id ∙ i,
                  open_still s at' ∙ r,
                )
            | inr there ↦ (s, rw (get_elem?-modify q p f heap, at, there), i, r)
          ]

  -- A write that may end the stream, together with the removal of the stream's id.
  pub ended-IsTable :
      (id : ℕ) → lookup id streams ≡ some q → IsTable (modify q f heap) (delete id streams)
  ended-IsTable id at_id = record { live = found; buffers = kept_buffers }
    where
      found :
          (j p : ℕ)
          → lookup j (delete id streams) ≡ some p
          → (s : Stream) × (get_elem? (modify q f heap) p ≡ some s)
            × (s.id ≡ j)
            × (s.remote_closed ≡ false)
      found j p e =
          let (s, at, i, r) = t.live j p (ground (arith, lookup-delete id j streams)) in
          let (s', at', i', r') = t.live id q at_id in
          elim (Bool-cases (q == p)) [
            | inl here ↦ absurd (
                ground
                  (arith, lookup-delete id j streams, ==_iff id j, ==_iff q p, at, at', i, i', e))
            | inr there ↦ (s, rw (get_elem?-modify q p f heap, at, there), i, r)
          ]

-- A new stream under an id.
pub add-IsTable :
    (heap : List Stream) (streams : List (ℕ × ℕ)) (id : ℕ)
    → IsTable heap streams
    → IsTable (heap ++ new_stream id ∷ []) (insert id (length heap) streams)
add-IsTable heap streams id t = record {
  live = found;
  buffers =
      All-append IsBuffered heap (new_stream id ∷ []) t.buffers
        (unfold new_stream in omega arith, tt);
}
  where
    found :
        (j p : ℕ)
        → lookup j (insert id (length heap) streams) ≡ some p
        → (s : Stream) × (get_elem? (heap ++ new_stream id ∷ []) p ≡ some s)
          × (s.id ≡ j)
          × (s.remote_closed ≡ false)
    found j p e = elim (Bool-cases (id == j)) [
      | inl same ↦
          unfold new_stream in
          (
            new_stream id,
            let at : p ≡ length heap = ground (arith, lookup-insert id j (length heap) streams) in
                rw at (get_elem?-append_last heap (new_stream id)),
            (==_iff id j).0 same,
            refl,
          )
      | inr other ↦
          let (s, at, i, r) =
            t.live j p (ground (arith, lookup-insert id j (length heap) streams)) in
          (s, get_elem?-append heap (new_stream id ∷ []) p s at, i, r)
    ]
