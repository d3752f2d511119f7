-- ===== src/Client/Gamer/Game.antt =====
-- A whole game as the client plays it.
use Prim.Native.String.{◌++◌ as append}
use Prim.Native.String.append.{nil as append_nil}
use angry_balls.Base.{
  ℕ, ◌%◌, ◌^◌, ◌<◌, List, [], ◌∷◌, ◌++◌, Bool, true, false, Option, some, All, map, ◌≡◌, refl, ap,
  ◌∙◌,
}
use angry_balls.Double.{Double}
use angry_balls.Units.{FieldState, Turn, Acceleration}
use angry_balls.Protocol.{
  Message, client_subscribe_request_message, client_subscribe_result_message, field_state_message,
  turn_message, finish_message,
}
use angry_balls.Protocol.Json.{Json, IsJson}
use angry_balls.Protocol.Build.{build, build_json_message}
use angry_balls.Protocol.Parse.{parse_json_message}
use angry_balls.Protocol.RoundTrip.{IsNarrow, arriving, arrives, parse-build_json_message}
use angry_balls.Client.Gamer.{
  Round, finished, connects, gamer_turn, gamer_finish, run_loop, subscribe_result, gamer_run,
}

module _ {N V S : Type 0} ⦃d : Double N⦄ (j : Json N V)
    (get_turn : FieldState N → ℕ → S → Option (Acceleration N × S)) where
  -- A message as the server sends it, in a round whose answer goes through.
  abbrev pub round : Message N → Round
  round m = record { received = some (build_json_message j m); send_fails = false }

  -- The text of a message is read as the value that was written.
  abbrev pub IsRead : Message N → Type 0
  IsRead m = j.parse (build_json_message j m) ≡ some (build j m)

  -- The turns that the strategy chooses for the states, as they arrive, one after another.
  pub data Chooses (player_id : ℕ) : S → List (FieldState N) → List (Turn N) → S → Type 0 where
    no_states : {s : S} → Chooses player_id s [] [] s
    state_then :
        {s s' last : S} {st : FieldState N} {sts : List (FieldState N)} {ts : List (Turn N)}
        {a : Acceleration N}
        → get_turn (arriving st) player_id s ≡ some (a, s')
        → Chooses player_id s' sts ts last
        → Chooses player_id s
            (st ∷ sts)
            (record { player_id = player_id; state_id = st.id % 2 ^ 32; acceleration = a } ∷ ts)
            last

  module _ (laws : IsJson j) where
    read_message :
        (m : Message N)
        → IsNarrow m
        → IsRead m
        → parse_json_message j (append "" (build_json_message j m)) ≡ arrives m
    read_message m h e =
        ap (parse_json_message j) (append_nil (build_json_message j m))
        ∙ parse-build_json_message j laws m h e

    run_loop-Chooses :
        {player_id : ℕ} {s last : S} {sts : List (FieldState N)} {ts : List (Turn N)}
        → Chooses player_id s sts ts last
        → All (λ st. IsNarrow (field_state_message st)) sts
        → All (λ st. IsRead (field_state_message st)) sts
        → IsRead finish_message
        → run_loop j get_turn player_id "" s
            (map (λ st. round (field_state_message st)) sts ++ round finish_message ∷ [])
          ≡ record {
            sent = map (λ t. build_json_message j (turn_message t)) ts;
            ended = finished;
            strategy = last;
          }
    unfolding run_loop gamer_turn gamer_finish
    run_loop-Chooses no_states _ _ r =
        let read = read_message finish_message tt r in
        rw (run_loop, gamer_turn, read, gamer_finish, read) refl
    run_loop-Chooses {player_id} {s} (state_then {s'} {st} chosen rest) (n, ns) (r, rs) f =
        rw
          (
            run_loop,
            gamer_turn,
            read_message (field_state_message st) n r,
            chosen,
            run_loop-Chooses rest ns rs f,
          )
          refl

    -- Once a connection attempt succeeds, the confirmation of the subscription, any states and the end
    -- of the game have arrived, Run has sent the request, then to each state, in their order, exactly
    -- one turn, which carries the player id of the confirmation, the number of that state modulo 2^32
    -- and the acceleration that the strategy chose for it, and has ended; when the ids have 32 bits, the
    -- texts are read as they were written, the strategy returns and nothing fails to be sent.
    pub gamer_run-Chooses :
        {player_id : ℕ} {s last : S} {sts : List (FieldState N)} {ts : List (Turn N)}
        (attempts : List Bool)
        → connects attempts ≡ true
        → player_id < 2 ^ 32
        → Chooses player_id s sts ts last
        → All (λ st. IsNarrow (field_state_message st)) sts
        → IsRead (client_subscribe_result_message true player_id)
        → All (λ st. IsRead (field_state_message st)) sts
        → IsRead finish_message
        → gamer_run j get_turn attempts
            (round (client_subscribe_result_message true player_id))
            (map (λ st. round (field_state_message st)) sts ++ round finish_message ∷ [])
            s
          ≡ record {
            sent =
                build_json_message j client_subscribe_request_message
                ∷ map (λ t. build_json_message j (turn_message t)) ts;
            ended = finished;
            strategy = last;
          }
    unfolding gamer_run subscribe_result
    gamer_run-Chooses {player_id} attempts connected narrow chosen ns confirmed rs f =
        let confirmation = client_subscribe_result_message true player_id in
        rw
          (
            gamer_run,
            connected,
            subscribe_result,
            parse-build_json_message j laws confirmation narrow confirmed,
            run_loop-Chooses chosen ns rs f,
          )
          refl
