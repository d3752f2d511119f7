-- ===== src/Web/Socket/Ownership.antt =====
-- Every descriptor is given up once.
use angry_balls.Base.{
  ℕ, List, [], ◌∷◌, ◌++◌, Bool, true, false, Option, none, some, ◌≡◌, refl, ap, ◌∙◌,
}
use angry_balls.Web.Socket.{Socket, socket_without_fd, socket_of, close, set_fd, destroy, disown}

-- The calls in the life of a socket.
pub data Call : Type 0 where
  sets : ℕ → Call
  closes disowns : Call

-- The descriptors that a socket is given, and those that it gives up, by closing or by handing over, until
-- it is destroyed; `none` if a call throws.
abbrev pub given : List Call → List ℕ
given [] = []
given (sets fd ∷ cs) = fd ∷ given cs
given (closes ∷ cs) = given cs
given (disowns ∷ cs) = given cs

abbrev pub and_then : List ℕ → Option (List ℕ) → Option (List ℕ)
and_then fds none = none
and_then fds (some more) = some (fds ++ more)

unfoldable pub given_up : Socket → List Call → Option (List ℕ)
unfolding close set_fd destroy disown
given_up s [] = some (destroy s)
given_up s (sets fd ∷ cs) =
    let called = set_fd fd s in and_then called.closed (given_up called.socket cs)
given_up s (closes ∷ cs) = elim (close s) [
  | none ↦ none
  | some called ↦ and_then called.closed (given_up called.socket cs)
]
given_up s (disowns ∷ cs) = elim (disown s) [
  | none ↦ none
  | some (fd, left) ↦ and_then (fd ∷ []) (given_up left cs)
]

and_then-some :
    (fds : List ℕ) (o : Option (List ℕ)) (all : List ℕ)
    → and_then fds o ≡ some all
    → (more : List ℕ) × (o ≡ some more) × (all ≡ fds ++ more)
and_then-some fds none all h = cc
and_then-some fds (some more) all h = (more, refl, cc)

-- A socket that owns `fd`, and one that owns none.
abbrev owning : ℕ → Socket
owning fd = record { has_fd = true; fd = fd }

abbrev owning_none : ℕ → Socket
owning_none fd = record { has_fd = false; fd = fd }

-- The descriptor that a socket holds, if it owns one.
abbrev held : Bool → ℕ → List ℕ
held true fd = fd ∷ []
held false fd = []

given_up-held :
    (has_fd : Bool) (fd : ℕ) (cs : List Call) (fds : List ℕ)
    → given_up (record { has_fd = has_fd; fd = fd }) cs ≡ some fds
    → fds ≡ held has_fd fd ++ given cs
unfolding given_up close set_fd destroy disown socket_of socket_without_fd
given_up-held true fd [] fds h = cc
given_up-held false fd [] fds h = cc
given_up-held true fd (sets other ∷ cs) fds h =
    let (more, rest, e) = and_then-some (fd ∷ []) (given_up (owning other) cs) fds h in
    e ∙ ap (λ l. fd ∷ l) (given_up-held true other cs more rest)
given_up-held false fd (sets other ∷ cs) fds h =
    let (more, rest, e) = and_then-some [] (given_up (owning other) cs) fds h in
    e ∙ given_up-held true other cs more rest
given_up-held true fd (closes ∷ cs) fds h =
    let (more, rest, e) = and_then-some (fd ∷ []) (given_up (owning_none 0) cs) fds h in
    e ∙ ap (λ l. fd ∷ l) (given_up-held false 0 cs more rest)
given_up-held false fd (closes ∷ cs) fds h = cc
given_up-held true fd (disowns ∷ cs) fds h =
    let (more, rest, e) = and_then-some (fd ∷ []) (given_up (owning_none 0) cs) fds h in
    e ∙ ap (λ l. fd ∷ l) (given_up-held false 0 cs more rest)
given_up-held false fd (disowns ∷ cs) fds h = cc

-- However a socket is used until it is destroyed, if no call throws, the descriptors that it gives up, by
-- closing them or by handing them over, are exactly those that it was given, each once and in their
-- order: none leaks and none is closed twice.
pub given_up-given :
    (cs : List Call) (fds : List ℕ) → given_up socket_without_fd cs ≡ some fds → fds ≡ given cs
unfolding socket_without_fd
given_up-given cs fds h = given_up-held false 0 cs fds h
