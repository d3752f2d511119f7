-- ===== src/Mio/Events/Batch.antt =====
-- A batch of events is worked off without the use of a connection that was erased.
use angry_balls.Base.{
  ℕ, List, [], ◌∷◌, true, false, Bool-cases, All, Option-cases, some, ◌⊎◌, inl, inr, ◌==◌, ◌≡◌,
  refl, ◌∙◌, arith,
}
use angry_balls.Mio.Table.{
  store, is_listed, lookup-is_listed, store-is_listed, erase-is_listed, All-erase, All-store,
  All-erase_store,
}
use angry_balls.Mio.Events.{
  Event, Handlers, IoServer, Dispatched, handled, thrown, add_connection, add_connections,
  close_connection, finish_event, handle_event, handle_events,
}

module _ {C : Type 0} (h : Handlers C) where
  -- No connection in the list is to be closed.
  abbrev pub IsTidy : IoServer C → Type 0
  IsTidy s = All (λ e. h.need_close e.1 ≡ false) s.connections

  -- What is accepted is not to be closed at once.
  abbrev pub IsFresh : Type 0
  IsFresh =
      (c c' : C) (new : List C)
      → h.on_input c ≡ some (c', new)
      → All (λ b. h.need_close b ≡ false) new

  -- `s'` is tidy and lists all that `s` lists but for `k`.
  record Keeps (s : IoServer C) (k : ℕ) (s' : IoServer C) : Type 0 where
    tidy : IsTidy s'
    listed :
        (i : ℕ)
        → (k == i) ≡ false
        → is_listed i s.connections ≡ true
        → is_listed i s'.connections ≡ true

  close_connection-Keeps : (k : ℕ) (s : IoServer C) → IsTidy s → Keeps s k (close_connection k s)
  unfolding close_connection
  close_connection-Keeps k s t = record {
    tidy = All-erase (λ e. h.need_close e.1 ≡ false) k s.connections t;
    listed = λ i other l. erase-is_listed i k s.connections other ∙ l;
  }

  finish_event-Keeps :
      (k : ℕ) (c : C) (s : IoServer C) → IsTidy s → Keeps s k (finish_event h k c s)
  unfolding finish_event close_connection
  finish_event-Keeps k c s t = elim (Bool-cases (h.need_close c)) [
    | inl e ↦ rw (e) (record {
      tidy = All-erase_store (λ e. h.need_close e.1 ≡ false) k c s.connections t;
      listed = λ i other l.
          erase-is_listed i k (store k c s.connections) other
          ∙ store-is_listed i k c s.connections
          ∙ l;
    })
    | inr e ↦ rw (e) (record {
      tidy = All-store (λ e. h.need_close e.1 ≡ false) k c s.connections (λ j. e) t;
      listed = λ i other l. store-is_listed i k c s.connections ∙ l;
    })
  ]

  add_connections-Keeps :
      (k : ℕ) (new : List C) (s : IoServer C)
      → All (λ b. h.need_close b ≡ false) new
      → IsTidy s
      → Keeps s k (add_connections new s)
  unfolding add_connections add_connection
  add_connections-Keeps k [] s _ t = record { tidy = t; listed = λ i other l. l }
  add_connections-Keeps k (c ∷ new) s (f, fs) t =
      let rest = add_connections-Keeps k new (add_connection c s) fs (f, t) in
      record { tidy = rest.tidy; listed = λ i other l. rest.listed i other (ground (arith, l)) }

  Keeps-trans : (s1 s2 s3 : IoServer C) (k : ℕ) → Keeps s1 k s2 → Keeps s2 k s3 → Keeps s1 k s3
  Keeps-trans s1 s2 s3 k p q = record {
    tidy = q.tidy;
    listed = λ i other l. q.listed i other (p.listed i other l);
  }

  data Steps (s : IoServer C) (k : ℕ) : Dispatched C → Type 0 where
    steps_to : {s' : IoServer C} → Keeps s k s' → Steps s k (handled s')
    throws : {s' : IoServer C} → Steps s k (thrown s')

  handle_event-Steps :
      IsFresh
      → (e : Event) (s : IoServer C) → IsTidy s
      → is_listed e.connection s.connections ≡ true
      → Steps s e.connection (handle_event h e s)
  unfolding handle_event
  handle_event-Steps fresh e s t l =
      let (c, at) = lookup-is_listed e.connection s.connections l in
      let closes = steps_to (close_connection-Keeps e.connection s t) in
      elim (Bool-cases e.error) [
        | inl broken ↦ rw (handle_event, at, broken) closes
        | inr sound ↦ elim (Bool-cases e.input) [
          | inl readable ↦ elim (Option-cases (h.on_input c)) [
            | inl fails ↦ rw (handle_event, at, sound, readable, fails) throws
            | inr ((c', new), reads) ↦
                let grown = add_connections-Keeps e.connection new s (fresh c c' new reads) t in
                let finished =
                  finish_event-Keeps e.connection c' (add_connections new s) grown.tidy in
                rw (handle_event, at, sound, readable, reads)
                  (steps_to (Keeps-trans s (add_connections new s) _ e.connection grown finished))
          ]
          | inr quiet ↦ elim (Bool-cases e.output) [
            | inl writable ↦ elim (Option-cases (h.on_output c)) [
              | inl fails ↦ rw (handle_event, at, sound, quiet, writable, fails) throws
              | inr (c', writes) ↦
                  rw (handle_event, at, sound, quiet, writable, writes)
                    (steps_to (finish_event-Keeps e.connection c' s t))
            ]
            | inr full ↦ elim (Bool-cases e.closed) [
              | inl gone ↦ rw (handle_event, at, sound, quiet, full, gone) closes
              | inr still ↦
                  rw (handle_event, at, sound, quiet, full, still)
                    (steps_to (finish_event-Keeps e.connection c s t))
            ]
          ]
        ]
      ]

  Steps-cases :
      {s : IoServer C} {k : ℕ} {r : Dispatched C}
      → Steps s k r
      → ((s' : IoServer C) × (r ≡ handled s') × Keeps s k s')
        ⊎ ((s' : IoServer C) × (r ≡ thrown s'))
  Steps-cases (steps_to {s'} p) = inl (s', refl, p)
  Steps-cases (throws {s'}) = inr (s', refl)

  -- A batch in which each connection occurs once.
  abbrev pub IsDistinct : List Event → Type 0
  IsDistinct [] = Unit
  IsDistinct (e ∷ es) = All (λ f. (e.connection == f.connection) ≡ false) es × IsDistinct es

  abbrev pub AllListed : List Event → IoServer C → Type 0
  AllListed es s = All (λ e. is_listed e.connection s.connections ≡ true) es

  -- The batch ends with a tidy server, or with an exception of a handler.
  pub data Ends : Dispatched C → Type 0 where
    ends : {s : IoServer C} → IsTidy s → Ends (handled s)
    throws : {s : IoServer C} → Ends (thrown s)

  still_listed :
      (k : ℕ) (es : List Event) (s s' : IoServer C)
      → Keeps s k s'
      → All (λ f. (k == f.connection) ≡ false) es
      → AllListed es s
      → AllListed es s'
  still_listed k [] s s' p _ _ = tt
  still_listed k (e ∷ es) s s' p (d, ds) (l, ls) =
      (p.listed e.connection d l, still_listed k es s s' p ds ls)

  -- Each connection that is listed and occurs in a batch of events at most once is still there when its
  -- event comes, whatever the handlers do and whatever is accepted or closed in between: no iterator
  -- that was erased is used. The batch ends with an exception of a handler, or with a server in which
  -- no connection is left that is to be closed, if there was none before and what is accepted is not
  -- to be closed at once.
  pub handle_events-Ends :
      IsFresh
      → (es : List Event) (s : IoServer C) → IsDistinct es
      → AllListed es s
      → IsTidy s
      → Ends (handle_events h es s)
  unfolding handle_events
  handle_events-Ends fresh [] s _ _ t = ends t
  handle_events-Ends fresh (e ∷ es) s (d, ds) (l, ls) t =
      elim (Steps-cases (handle_event-Steps fresh e s t l)) [
        | inl (s', now, p) ↦
            rw (handle_events, now)
              (handle_events-Ends fresh es s' ds (still_listed e.connection es s s' p d ls) p.tidy)
        | inr (s', now) ↦ rw (handle_events, now) throws
      ]
