-- ===== src/Web/Viewer/Following.antt =====
-- What the web server shows of a game that it follows.
use angry_balls.Base.{
  ℕ, ◌<◌, ◌^◌, List, [], ◌∷◌, ◌++◌, true, Option, some, All, map, append-nil, ◌≡◌, refl, sym, ap,
}
use angry_balls.Double.{Double}
use angry_balls.Units.{FieldState}
use angry_balls.Protocol.{
  Message, viewer_subscribe_result_message, field_state_message, finish_message,
}
use Prim.Native.String.{String}
use angry_balls.Protocol.Json.{Json, IsJson}
use angry_balls.Protocol.Build.{build, build_json_message}
use angry_balls.Protocol.RoundTrip.{IsNarrow, arriving, parse-build_json_message}
use angry_balls.Web.Viewer.{
  Viewer, returns, waiting, get_field, handshake, get_next_field_state, follow, viewer_run,
}

module _ {N V : Type 0} ⦃d : Double N⦄ (j : Json N V) where
  -- The text of a message is read as the value that was written.
  abbrev pub IsRead : Message N → Type 0
  IsRead m = j.parse (build_json_message j m) ≡ some (build j m)

  abbrev pub texts : List (FieldState N) → List (Option String)
  texts sts = map (λ st. some (build_json_message j (field_state_message st))) sts

  -- The viewer after these states.
  abbrev shown : Viewer N → List (FieldState N) → Viewer N
  shown v [] = v
  shown v (st ∷ sts) = shown (record { field = arriving st; have_field = true }) sts

  shown_last :
      (v : Viewer N) (sts : List (FieldState N)) (st : FieldState N)
      → shown v (sts ++ st ∷ []) ≡ record { field = arriving st; have_field = true }
  shown_last v [] st = refl
  shown_last v (s ∷ sts) st = shown_last (record { field = arriving s; have_field = true }) sts st

  module _ (laws : IsJson j) where
    follow-shown :
        (v : Viewer N) (sts : List (FieldState N)) (ms : List (Option String))
        → All (λ st. IsNarrow (field_state_message st)) sts
        → All (λ st. IsRead (field_state_message st)) sts
        → follow j v (texts sts ++ ms) ≡ follow j (shown v sts) ms
    unfolding follow get_next_field_state
    follow-shown v [] ms _ _ = refl
    follow-shown v (st ∷ sts) ms (n, ns) (r, rs) =
        rw
          (
            follow,
            get_next_field_state,
            parse-build_json_message j laws (field_state_message st) n r,
          )
          (follow-shown (record { field = arriving st; have_field = true }) sts ms ns rs)

    follow-finish :
        (v : Viewer N)
        → IsRead finish_message
        → follow j v (some (build_json_message j finish_message) ∷ []) ≡ returns 0 v
    unfolding follow get_next_field_state
    follow-finish v f =
        rw (follow, get_next_field_state, parse-build_json_message j laws finish_message tt f) refl

    -- After a handshake that was confirmed and any states, of which `st` came last, GetField gives that
    -- state as it arrived, and says that there is one; Run waits for more, and returns 0 when the end of
    -- the game follows; when the ids have 32 bits and the texts are read as they were written.
    pub viewer_run-get_field :
        (v : Viewer N) (id : ℕ) (sts : List (FieldState N)) (st : FieldState N)
        → id < 2 ^ 32
        → All (λ st. IsNarrow (field_state_message st)) (sts ++ st ∷ [])
        → IsRead (viewer_subscribe_result_message true id)
        → All (λ st. IsRead (field_state_message st)) (sts ++ st ∷ [])
        → IsRead finish_message
        → (v' : Viewer N) × (viewer_run j true true
              (some (build_json_message j (viewer_subscribe_result_message true id)))
              (texts (sts ++ st ∷ []))
              v
            ≡ waiting v')
          × (viewer_run j true true
                (some (build_json_message j (viewer_subscribe_result_message true id)))
                (texts (sts ++ st ∷ []) ++ some (build_json_message j finish_message) ∷ [])
                v
              ≡ returns 0 v')
          × (get_field v' ≡ (arriving st, true))
    unfolding viewer_run handshake get_field
    viewer_run-get_field v id sts st narrow ns confirmed rs f =
        let confirmation = viewer_subscribe_result_message true id in
        let heard = parse-build_json_message j laws confirmation narrow confirmed in
        let all = sts ++ st ∷ [] in
        let last : Viewer N = record { field = arriving st; have_field = true } in
        (
          last,
          rw
              (
                viewer_run,
                handshake,
                heard,
                sym (append-nil (texts all)),
                follow-shown v all [] ns rs,
              )
              (ap waiting (shown_last v sts st)),
          rw (viewer_run, handshake, heard, follow-shown v all _ ns rs, shown_last v sts st)
              (follow-finish last f),
          refl,
        )
