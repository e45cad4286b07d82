-- ===== src/Bus/Queue.antt =====
-- The queue of one subscription against the history of the events that were meant for it.
use minecraft_server_manager.Prelude.{
  ℕ, suc, ◌+◌, ◌≤◌, ◌<◌, ◌≡◌, refl, ap, sym, ◌∙◌, false, none, some, List, [], ◌∷◌, ◌++◌, length,
  drop, length-append, length-drop, drop-append, drop-drop, arith, ltb, if◌then◌else◌, ◌⊎◌, inl,
  inr,
}
use native.Mathlib.Decide.{dec_lt}
use minecraft_server_manager.Bus.{Event, Subscription, deliver, get}

-- Of `history`, the events delivered so far, `taken` have been read and `lost` were evicted; the
-- queue is what remains, in order, and never more than its capacity.
pub record Tracks {A : Type 0} (history : List (Event A)) (taken lost : ℕ) (s : Subscription A)
    : Type 0 where
  pub is_open : s.closed ≡ false
  pub capacity : 1 ≤ s.maxsize
  pub queued : s.queue ≡ drop (taken + lost) history
  pub bounded : length s.queue ≤ s.maxsize
  pub counted : taken + lost + length s.queue ≡ length history

module _ {A : Type 0} where
  deliver-room :
      (s : Subscription A) (e : Event A)
      → s.closed ≡ false
      → length s.queue < s.maxsize
      → deliver e s ≡ record s { queue = s.queue ++ e ∷ [] }
  unfolding deliver
  deliver-room s e h p = ground arith

  deliver-full :
      (s : Subscription A) (e : Event A)
      → s.closed ≡ false
      → 1 ≤ s.maxsize
      → length s.queue ≡ s.maxsize
      → deliver e s ≡ record s { queue = drop 1 s.queue ++ e ∷ []; dropped = s.dropped + 1 }
  unfolding deliver
  deliver-full s e h p q = ground (arith, length-drop 1 s.queue)

  -- A delivery to an open subscription neither blocks nor refuses the new event: the queue stays
  -- within its capacity and holds the unread events in order; what is evicted is the oldest unread
  -- event, only if the queue was full, and the counter of losses grows by exactly what was evicted.
  pub deliver-Tracks :
      (history : List (Event A)) (taken lost : ℕ) (s : Subscription A) (e : Event A)
      → Tracks history taken lost s
      → (evicted : ℕ) × Tracks (history ++ e ∷ []) taken (lost + evicted) (deliver e s)
        × ((deliver e s).dropped ≡ s.dropped + evicted)
        × (evicted ≡ (if ltb (length s.queue) s.maxsize then 0 else 1))
  deliver-Tracks history taken lost s e h =
      let longer = length-append s.queue (e ∷ []) in
      let longest = length-append history (e ∷ []) in
      elim (dec_lt (length s.queue) s.maxsize) [
        | yes p ↦ rw (deliver-room s e h.is_open p) (
          0,
          record {
            is_open = h.is_open;
            capacity = h.capacity;
            queued =
                ap (λ q. q ++ e ∷ []) h.queued
                ∙ sym (drop-append (taken + lost) history (e ∷ []) (omega arith))
                ∙ ap (λ k. drop k (history ++ e ∷ [])) (omega arith);
            bounded = omega (arith, longer);
            counted = omega (arith, longer, longest);
          },
          omega arith,
          ground arith,
        )
        | no p ↦
            let shorter = length-drop 1 s.queue in
            let shifted = length-append (drop 1 s.queue) (e ∷ []) in
            rw (deliver-full s e h.is_open h.capacity (omega arith)) (
              1,
              record {
                is_open = h.is_open;
                capacity = h.capacity;
                queued =
                    ap (λ q. drop 1 q ++ e ∷ []) h.queued
                    ∙ ap (λ q. q ++ e ∷ []) (drop-drop 1 (taken + lost) history)
                    ∙ sym (drop-append (taken + lost + 1) history (e ∷ []) (omega arith))
                    ∙ ap (λ k. drop k (history ++ e ∷ [])) (omega arith);
                bounded = omega (arith, shorter, shifted);
                counted = omega (arith, shorter, shifted, longest);
              },
              omega arith,
              ground arith,
            )
      ]

  drop-step :
      (k : ℕ) (xs : List (Event A)) (e : Event A) (rest : List (Event A))
      → drop k xs ≡ e ∷ rest
      → drop (k + 1) xs ≡ rest
  drop-step k xs e rest h = sym (drop-drop 1 k xs) ∙ ap (drop 1) h

  -- What `get` does, by whether an event is waiting.
  abbrev Reads : List (Event A) → ℕ → ℕ → Subscription A → Type 0
  Reads history taken lost s =
      ((get s ≡ none) × (length history ≡ taken + lost))
      ⊎ ((e : Event A) × (s' : Subscription A) × (get s ≡ some (e, s'))
          × (drop (taken + lost) history ≡ e ∷ s'.queue)
          × Tracks history (taken + 1) lost s')

  get-by :
      (queue history : List (Event A)) (taken lost : ℕ) (s : Subscription A)
      → s.queue ≡ queue
      → Tracks history taken lost s
      → Reads history taken lost s
  unfolding get
  get-by [] history taken lost s q h = inl (rw q refl, omega (arith, h.counted, ap length q))
  get-by (e ∷ rest) history taken lost s q h =
      let s' : Subscription A = record s { queue = rest } in
      let waiting : drop (taken + lost) history ≡ e ∷ rest = sym h.queued ∙ q in
      let count : length s.queue ≡ suc (length rest) = ap length q in
      inr (
        e,
        s',
        rw q refl,
        waiting,
        record {
          is_open = h.is_open;
          capacity = h.capacity;
          queued =
              sym (drop-step (taken + lost) history e rest waiting)
              ∙ ap (λ k. drop k history) (omega arith);
          bounded = omega (arith, h.bounded, count);
          counted = omega (arith, h.counted, count);
        },
      )

  -- Reading gives the oldest event that was neither read nor evicted, whenever there is one, and
  -- then counts as read; with none the reader waits.
  pub get-Tracks :
      (history : List (Event A)) (taken lost : ℕ) (s : Subscription A)
      → Tracks history taken lost s
      → Reads history taken lost s
  get-Tracks history taken lost s h = get-by s.queue history taken lost s refl h
