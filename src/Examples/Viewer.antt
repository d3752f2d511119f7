-- ===== src/Examples/Viewer.antt =====
-- The web server follows a game of one state; and a message of three bytes comes with one of the next.
use mathlib.Core.List.{flatten}
use angry_balls.Base.{[], ◌∷◌, ◌++◌, map, leb, true, some, ◌≡◌, refl, arith, if◌then◌else◌}
use angry_balls.Base.Int.{ℤ}
use angry_balls.Bytes.{encode_uint32}
use angry_balls.Double.Fixed.{fixed}
use angry_balls.Protocol.{viewer_subscribe_result_message, finish_message}
use angry_balls.Protocol.Build.{build, build_json_message}
use angry_balls.Protocol.Names.{to_string}
use angry_balls.Protocol.RoundTrip.{arriving}
use angry_balls.Web.Viewer.{Viewer, viewer_client, viewer_run, waiting, returns, get_field}
use angry_balls.Web.Viewer.Following.{texts, viewer_run-get_field}
use angry_balls.Web.Viewer.Stream.{got, read_done, overrun, receive_full_message}
use angry_balls.Web.Viewer.Stream.Reading.{receive_full_message_lem}
use angry_balls.Examples.Client.{game_library, game_library-IsJson}
use angry_balls.Examples.Data.{field}

receive_full_message_lem_example :
    receive_full_message
      (9 ∷ 9 ∷ 9 ∷ 9 ∷ [])
      (got (encode_uint32 3) ∷ (map got ((1 ∷ []) ∷ []) ++ got (2 ∷ 3 ∷ 7 ∷ []) ∷ []))
    ≡ (if leb 4 3 then read_done (1 ∷ 2 ∷ 3 ∷ 7 ∷ []) [] else overrun)
unfolding flatten
receive_full_message_lem_example =
    receive_full_message_lem (9 ∷ 9 ∷ 9 ∷ 9 ∷ []) 3 ((1 ∷ []) ∷ []) (2 ∷ 3 ∷ 7 ∷ []) [] refl
      (omega arith) (omega arith, tt) (omega arith) (omega arith)

viewer_run-get_field_example :
    (v : Viewer ℤ) × (viewer_run game_library true true
        (some (build_json_message game_library (viewer_subscribe_result_message true 1)))
        (texts game_library (field ∷ []))
        (viewer_client field)
      ≡ waiting v)
    × (viewer_run game_library true true
          (some (build_json_message game_library (viewer_subscribe_result_message true 1)))
          (texts game_library (field ∷ [])
            ++ some (build_json_message game_library finish_message) ∷ [])
          (viewer_client field)
        ≡ returns 0 v)
    × (get_field v ≡ (arriving field, true))
unfolding build_json_message build to_string
viewer_run-get_field_example =
    viewer_run-get_field game_library game_library-IsJson (viewer_client field) 1 [] field
      (omega arith) ((omega arith, (omega arith, tt)), tt) refl (refl, tt) refl
