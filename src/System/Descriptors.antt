-- ===== src/System/Descriptors.antt =====
-- The count of the descriptors in a log: how often each was opened and closed.
use angry_balls.Base.{
  ℕ, ◌+◌, [], ◌∷◌, Option, none, some, ◌≡◌, refl, ◌∙◌, ◌==◌, if◌then◌else◌, arith,
}
use angry_balls.System.{
  Call, open_socket, create_epoll, accept_on, close_fd, Answer, returned, Log, System, answer,
  after,
}

-- 1 if the descriptors are the same.
abbrev pub one_if : ℕ → ℕ → ℕ
one_if d fd = if fd == d then 1 else 0

-- The descriptor that an answered call has opened.
abbrev pub opened_by : Call → Answer → Option ℕ
opened_by open_socket (returned fd) = some fd
opened_by create_epoll (returned fd) = some fd
opened_by (accept_on listening) (returned fd) = some fd
opened_by c a = none

-- How often an answered call has opened or closed the descriptor `d`.
abbrev pub opens : ℕ → Call → Answer → ℕ
opens d c a = elim (opened_by c a) [ none ↦ 0 | some fd ↦ one_if d fd ]

abbrev pub closes : ℕ → Call → ℕ
closes d (close_fd fd) = one_if d fd
closes d c = 0

abbrev pub opened : ℕ → Log → ℕ
opened d [] = 0
opened d ((c, a) ∷ log) = opens d c a + opened d log

abbrev pub closed : ℕ → Log → ℕ
closed d [] = 0
closed d ((c, a) ∷ log) = closes d c + closed d log

-- 1 if `d` is the descriptor that was opened last.
abbrev pub last_opened : ℕ → Log → ℕ
last_opened d [] = 0
last_opened d ((c, a) ∷ log) =
    let before = last_opened d log in elim (opened_by c a) [ none ↦ before | some fd ↦ one_if d fd ]

-- From one state of the system to another, each descriptor was opened as often as it was closed, and once
-- more for each time that it is held.
abbrev pub Leaves : (ℕ → ℕ) → System → System → Type 0
Leaves held s s' =
    (d : ℕ) → opened d s'.log + closed d s.log ≡ opened d s.log + closed d s'.log + held d

-- The system has opened and closed the same descriptors.
pub record Same (s s' : System) : Type 0 where
  pub opened_same : (d : ℕ) → opened d s'.log ≡ opened d s.log
  pub closed_same : (d : ℕ) → closed d s'.log ≡ closed d s.log
  pub last_same : (d : ℕ) → last_opened d s'.log ≡ last_opened d s.log

pub Same-refl : (s : System) → Same s s
Same-refl s = record { opened_same = λ d. refl; closed_same = λ d. refl; last_same = λ d. refl }

-- A call that neither opens nor closes.
pub Same-after :
    {s s' : System} (c : Call)
    → ((a : Answer) → opened_by c a ≡ none)
    → ((d : ℕ) → closes d c ≡ 0)
    → Same s s'
    → Same s (after c s')
Same-after {s} {s'} c opens_none closes_none same = record {
  opened_same = λ d. ground (arith, opens_none (answer c s'), same.opened_same d);
  closed_same = λ d. ground (arith, closes_none d, same.closed_same d);
  last_same = λ d. rw (last_opened, opens_none (answer c s')) (same.last_same d);
}

pub Same-trans : {s t u : System} → Same s t → Same t u → Same s u
Same-trans first later = record {
  opened_same = λ d. later.opened_same d ∙ first.opened_same d;
  closed_same = λ d. later.closed_same d ∙ first.closed_same d;
  last_same = λ d. later.last_same d ∙ first.last_same d;
}
