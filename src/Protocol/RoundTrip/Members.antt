-- ===== src/Protocol/RoundTrip/Members.antt =====
-- The members of an object and the elements of an array are read back as they were built.
use Prim.Native.String.{String}
use text.Mathlib.Text.{◌==◌ as str_eq}
use angry_balls.Base.{ℕ, ◌^◌, ◌<◌, List, [], ◌∷◌, true, map, All, ◌≡◌, refl}
use angry_balls.Double.{Double}
use angry_balls.Units.{Player, Coin}
use angry_balls.Protocol.Json.{Json, IsJson, found, missing, last_assigned}
use angry_balls.Protocol.Build.{build_player, build_coin}
use angry_balls.Protocol.Parse.{
  parsed, member, uint_member, double_member, array_member, check_type, parse_player, parse_coin,
  parse_players, parse_coins,
}

module _ {N V : Type 0} ⦃d : Double N⦄ (j : Json N V) (laws : IsJson j) where
  pub uint_member-assigned :
      (fields : List (String × V)) (key : String) (n : ℕ)
      → n < 2 ^ 32
      → last_assigned fields key missing ≡ found (j.uint n)
      → uint_member j (j.assigned fields) key ≡ parsed n
  unfolding uint_member member
  uint_member-assigned fields key n h e =
      rw (uint_member, member, laws.get-assigned fields key, e, laws.as_uint-uint n h) refl

  pub double_member-assigned :
      (fields : List (String × V)) (key : String) (x : N)
      → last_assigned fields key missing ≡ found (j.real x)
      → double_member j (j.assigned fields) key ≡ parsed x
  unfolding double_member member
  double_member-assigned fields key x e =
      rw (double_member, member, laws.get-assigned fields key, e, laws.as_double-real x) refl

  pub array_member-assigned :
      (fields : List (String × V)) (key : String) (vs : List V)
      → last_assigned fields key missing ≡ found (j.appended vs)
      → array_member j (j.assigned fields) key ≡ parsed vs
  unfolding array_member member
  array_member-assigned fields key vs e =
      rw (array_member, member, laws.get-assigned fields key, e, laws.elements-appended vs) refl

  pub check_type-assigned :
      (fields : List (String × V)) (name : String)
      → last_assigned fields "type" missing ≡ found (j.text name)
      → str_eq name name ≡ true
      → check_type j (j.assigned fields) name ≡ parsed tt
  unfolding check_type
  check_type-assigned fields name e same =
      rw (check_type, laws.get-assigned fields "type", e, laws.is_text-text name name, same) refl

  parse_player-build_player :
      (radius : N) (p : Player N)
      → p.id < 2 ^ 32
      → parse_player j radius (build_player j p) ≡ parsed (record p { radius = radius })
  unfolding parse_player build_player
  parse_player-build_player radius p h =
      rw
        (
          uint_member-assigned _ "id" p.id h refl,
          double_member-assigned _ "x" p.center.x refl,
          double_member-assigned _ "y" p.center.y refl,
          double_member-assigned _ "v_x" p.velocity.x refl,
          double_member-assigned _ "v_y" p.velocity.y refl,
          double_member-assigned _ "score" p.score refl,
        )
        refl

  parse_coin-build_coin :
      (radius : N) (c : Coin N)
      → parse_coin j radius (build_coin j c) ≡ parsed (record c { radius = radius })
  unfolding parse_coin build_coin
  parse_coin-build_coin radius c =
      rw
        (
          double_member-assigned _ "x" c.center.x refl,
          double_member-assigned _ "y" c.center.y refl,
          double_member-assigned _ "value" c.value refl,
        )
        refl

  pub parse_players-build :
      (radius : N) (ps : List (Player N))
      → All (λ p. p.id < 2 ^ 32) ps
      → parse_players j radius (map (build_player j) ps)
        ≡ parsed (map (λ (p : Player N). record p { radius = radius }) ps)
  unfolding parse_players
  parse_players-build radius [] h = refl
  parse_players-build radius (p ∷ ps) (h, hs) =
      rw (parse_player-build_player radius p h, parse_players-build radius ps hs) refl

  pub parse_coins-build :
      (radius : N) (cs : List (Coin N))
      → parse_coins j radius (map (build_coin j) cs)
        ≡ parsed (map (λ (c : Coin N). record c { radius = radius }) cs)
  unfolding parse_coins
  parse_coins-build radius [] = refl
  parse_coins-build radius (c ∷ cs) =
      rw (parse_coin-build_coin radius c, parse_coins-build radius cs) refl
