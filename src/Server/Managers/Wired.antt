-- ===== src/Server/Managers/Wired.antt =====
-- Every observer that the managers have listed has an entry in the table of the connections, so the
-- sending to observers never throws.
use angry_balls.Base.{
  ℕ, ◌<◌, List, [], ◌∷◌, ◌++◌, Bool, true, false, none, some, All, All-append, length,
  length-append, get_elem?, get_elem?-lt, append_assoc, append-nil, Bool-cases, Option-cases, inl,
  inr, ◌≡◌, refl, sym, ap, ◌∙◌, subst, if◌then◌else◌, arith,
}
use angry_balls.Double.{Double}
use angry_balls.Protocol.{
  Message, client_subscribe_request_message, client_subscribe_result_message,
  viewer_subscribe_request_message, viewer_subscribe_result_message, field_state_message,
  turn_message, finish_message,
}
use angry_balls.Protocol.Parse.{Parsed, parsed, null, failed}
use angry_balls.Server.GameState.Interface.{Generators}
use angry_balls.Server.GameState.{
  Manager, Added, refused, added, searching, aborted, out_of_range, add_player, add_turn,
}
use angry_balls.Server.Managers.{
  Server, Called, returns, throws, asserts, searches, send_message, send_message_to_connections,
  add_connection, add_client, add_viewer, dispatch_message, receive_message, send_to_all_observers,
}

returns-injective : {A : Type 0} {a b : A} → returns a ≡ returns b → a ≡ b
returns-injective e = cc

module _ {N G C : Type 0} ⦃d : Double N⦄ (is_open : C → Bool) (gen : Generators N G) where
  -- One message for each of the ids whose connection is open, in the order of the ids.
  abbrev pub deliveries : Message N → List C → List ℕ → List (C × Message N)
  deliveries m cs [] = []
  deliveries m cs (i ∷ is) =
      let rest = deliveries m cs is in
      elim (get_elem? cs i) [ none ↦ rest | some c ↦ if is_open c then (c, m) ∷ rest else rest ]

  abbrev pub Listed : List C → List ℕ → Type 0
  Listed cs = All (λ i. i < length cs)

  pub record IsWired (s : Server N G C) : Type 0 where
    pub clients : Listed s.connections s.client_ids
    pub viewers : Listed s.connections s.viewer_ids

  Listed-append : (cs : List C) (c : C) (is : List ℕ) → Listed cs is → Listed (cs ++ c ∷ []) is
  Listed-append cs c [] h = tt
  Listed-append cs c (i ∷ is) (h, hs) =
      (omega (arith, length-append cs (c ∷ [])), Listed-append cs c is hs)

  send_message_to_connections_lem :
      (m : Message N) (ids : List ℕ) (s : Server N G C)
      → Listed s.connections ids
      → send_message_to_connections is_open gen m ids s
        ≡ returns (record s { output = s.output ++ deliveries m s.connections ids })
  unfolding send_message_to_connections send_message
  send_message_to_connections_lem m [] s h =
      ap (λ o. returns (record s { output = o })) (sym (append-nil s.output))
  send_message_to_connections_lem m (i ∷ is) s (h, hs) =
      let (c, at) = get_elem?-lt s.connections i h in
      elim (Bool-cases (is_open c)) [
        | inl on ↦
            let sent : Server N G C = record s { output = s.output ++ (c, m) ∷ [] } in
            let rest = deliveries m s.connections is in
            rw (send_message_to_connections, send_message, deliveries, at, on)
              (send_message_to_connections_lem m is sent hs
                ∙ ap (λ o. returns (record s { output = o }))
                    (append_assoc s.output ((c, m) ∷ []) rest))
        | inr off ↦
            rw (send_message_to_connections, send_message, deliveries, at, off)
              (send_message_to_connections_lem m is s hs)
      ]

  -- A broadcast reaches every listed client and then every listed viewer whose connection is open,
  -- once for each time that it is listed, and changes nothing else; with observers that are all in
  -- the table of connections.
  pub send_to_all_observers_lem :
      (m : Message N) (s : Server N G C)
      → IsWired s
      → send_to_all_observers is_open gen m s
        ≡ returns (record s {
          output =
              (s.output ++ deliveries m s.connections s.client_ids)
              ++ deliveries m s.connections s.viewer_ids;
        })
  unfolding send_to_all_observers
  send_to_all_observers_lem m s w =
      rw (send_message_to_connections_lem m s.client_ids s w.clients)
        (send_message_to_connections_lem m s.viewer_ids _ w.viewers)

  told :
      (m : Message N) (id : ℕ) (s : Server N G C) {s' : Server N G C}
      → id < length s.connections
      → send_message_to_connections is_open gen m (id ∷ []) s ≡ returns s'
      → IsWired s
      → IsWired s'
  told m id s {s'} h e w =
      let same : s' ≡ record s { output = s.output ++ deliveries m s.connections (id ∷ []) } =
        returns-injective (sym e ∙ send_message_to_connections_lem m (id ∷ []) s (h, tt)) in
      rw (same) (record { clients = w.clients; viewers = w.viewers })

  add_viewer-IsWired :
      (id : ℕ) (s : Server N G C) {s' : Server N G C}
      → id < length s.connections
      → add_viewer is_open gen id s ≡ returns s'
      → IsWired s
      → IsWired s'
  unfolding add_viewer
  add_viewer-IsWired id s h e w =
      let listed : Server N G C = record s { viewer_ids = s.viewer_ids ++ id ∷ [] } in
      told _ id listed h e (record {
        clients = w.clients;
        viewers = All-append _ s.viewer_ids (id ∷ []) w.viewers (h, tt);
      })

  add_client-IsWired :
      (garbage id : ℕ) (s : Server N G C) {s' : Server N G C}
      → id < length s.connections
      → add_client is_open gen garbage id s ≡ returns s'
      → IsWired s
      → IsWired s'
  unfolding add_client
  add_client-IsWired garbage id s {s'} h e w = by_answer (add_player gen s.manager) e
    where
      listed : Server N G C
      listed = record s { client_ids = s.client_ids ++ id ∷ [] }

      wired : (m : Manager N G) → IsWired (record listed { manager = m })
      wired m = record {
        clients = All-append _ s.client_ids (id ∷ []) w.clients (h, tt);
        viewers = w.viewers;
      }

      by_answer :
          (a : Added N G)
          → (elim a as (λ x. Called (Server N G C)) [
            | refused ↦
                send_message_to_connections is_open gen
                  (client_subscribe_result_message false garbage)
                  (id ∷ [])
                  listed
            | added player_id m ↦
                send_message_to_connections is_open gen
                  (client_subscribe_result_message true player_id)
                  (id ∷ [])
                  (record listed { manager = m })
            | searching ↦ searches
            | aborted ↦ asserts
            | out_of_range ↦ throws
          ])
            ≡ returns s'
          → IsWired s'
      by_answer refused e = told _ id listed h e (wired s.manager)
      by_answer (added player_id m) e = told _ id (record listed { manager = m }) h e (wired m)
      by_answer searching e = cc
      by_answer aborted e = cc
      by_answer out_of_range e = cc

  dispatch_message-IsWired :
      (garbage : ℕ) (m : Message N) (id : ℕ) (s : Server N G C) {s' : Server N G C}
      → id < length s.connections
      → dispatch_message is_open gen garbage m id s ≡ returns s'
      → IsWired s
      → IsWired s'
  unfolding dispatch_message
  dispatch_message-IsWired garbage client_subscribe_request_message id s h e w =
      add_client-IsWired garbage id s h e w
  dispatch_message-IsWired garbage viewer_subscribe_request_message id s h e w =
      add_viewer-IsWired id s h e w
  dispatch_message-IsWired garbage (turn_message t) id s {s'} h e w =
      elim (Option-cases (add_turn t s.manager)) [
        | inl thrown ↦
            let lost : dispatch_message is_open gen garbage (turn_message t) id s ≡ throws =
              rw (dispatch_message, thrown) refl in
            cc
        | inr (m, taken) ↦
            let kept : dispatch_message is_open gen garbage (turn_message t) id s
                ≡ returns (record s { manager = m }) =
              rw (dispatch_message, taken) refl in
            rw (returns-injective (sym e ∙ kept))
              (record { clients = w.clients; viewers = w.viewers })
      ]
  dispatch_message-IsWired garbage (client_subscribe_result_message r i) id s h e w =
      subst IsWired (returns-injective e) w
  dispatch_message-IsWired garbage (viewer_subscribe_result_message r i) id s h e w =
      subst IsWired (returns-injective e) w
  dispatch_message-IsWired garbage (field_state_message f) id s h e w =
      subst IsWired (returns-injective e) w
  dispatch_message-IsWired garbage finish_message id s h e w = subst IsWired (returns-injective e) w

  -- Whatever message is received, if its handling returns, then every listed client and viewer still
  -- has an entry in the table of connections.
  pub receive_message-IsWired :
      (garbage : ℕ) (message : Parsed (Message N)) (c : C) (s : Server N G C) {s' : Server N G C}
      → receive_message is_open gen garbage message c s ≡ returns s'
      → IsWired s
      → IsWired s'
  unfolding receive_message add_connection
  receive_message-IsWired garbage null c s e w = cc
  receive_message-IsWired garbage failed c s e w = cc
  receive_message-IsWired garbage (parsed m) c s e w =
      let connected : Server N G C = record s { connections = s.connections ++ c ∷ [] } in
      let size = length-append s.connections (c ∷ []) in
      dispatch_message-IsWired garbage m _ connected (omega (arith, size)) e (record {
        clients = Listed-append s.connections c s.client_ids w.clients;
        viewers = Listed-append s.connections c s.viewer_ids w.viewers;
      })
