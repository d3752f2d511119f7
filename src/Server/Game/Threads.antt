-- ===== src/Server/Game/Threads.antt =====
-- `GameServer` of src/server/game_server.cpp: its constructor, and the two threads of `Run`, the one of
-- `GameStateManager::Run` and the one of the event loop.
use angry_balls.Base.{
  ℕ, suc, ◌^◌, ◌≤◌, ◌<◌, [], length, Bool, true, false, ◌≡◌, ◌≢◌, refl, sym, ap, ◌∙◌, subst, map,
  arith,
}
use angry_balls.Double.{Double}
use angry_balls.Units.{FieldState}
use angry_balls.Server.Config.{GameConfig}
use angry_balls.Server.GameState.Interface.{Generators, Counts}
use angry_balls.Server.GameState.{searching, add_player, init}
use angry_balls.Server.GameState.Run.{
  Phase, finished, Game, start_of, Step, Reaches, here, then_step,
}
use angry_balls.Server.GameState.Run.Rounds.{Stage, countdown, Reaches-IsRun}
use angry_balls.Server.Managers.{Server}

-- The objects that the constructor of `GameServer` makes and gives to each other.
unfoldable pub game_server : {N G C : Type 0} ⦃d : Double N⦄ → GameConfig N → G → ℕ → Server N G C
unfolding init
game_server config generators unset = record {
  manager = init config generators unset;
  connections = [];
  client_ids = [];
  viewer_ids = [];
  output = [];
}

-- Where the thread of the event loop stands: at the test of `stop_`, in `epoll_wait`, in the loop over a
-- batch of events, in a handler that searches a place for a new player and holds the mutex, or past the
-- loop.
pub data Loop : Type 0 where
  testing polling handling placing left : Loop

-- `GameServer::Run`: the game, `stop_`, the loop, and how many batches `epoll_wait` has brought since the
-- flag was set.
pub record Threads (N G : Type 0) : Type 0 where
  pub game : Game N G
  pub stop : Bool
  pub loop : Loop
  pub batches : ℕ

abbrev pub threads : {N G : Type 0} → Game N G → Threads N G
threads g = record { game = g; stop = false; loop = testing; batches = 0 }

-- The batches since the flag was set.
abbrev pub counted : Bool → ℕ → ℕ
counted true n = suc n
counted false n = n

module _ {N G : Type 0} ⦃d : Double N⦄ (gen : Generators N G) where
  -- An exception or a failed assertion of a handler ends the process, and is no turn.
  pub data Turns : Threads N G → Threads N G → Type 0 where
    -- The handling of a batch lets players and turns come; they change no phase of `Run`.
    message_comes :
        {g h : Game N G} {stop : Bool} {n : ℕ}
        → Step gen g h
        → g.phase ≡ h.phase
        → Turns
            (record { game = g; stop = stop; loop = handling; batches = n })
            (record { game = h; stop = stop; loop = handling; batches = n })
    -- `AddPlayer` has found no place in the rounds that the generator is given. More rounds are a generator
    -- that is given more; here the search goes on, and has the mutex.
    search_goes_on :
        {g : Game N G} {stop : Bool} {n : ℕ}
        → add_player gen g.manager ≡ searching
        → Turns
            (record { game = g; stop = stop; loop = handling; batches = n })
            (record { game = g; stop = stop; loop = placing; batches = n })
    -- The thread of `Run`, until it returns. Each of its steps takes the mutex.
    manager_runs :
        {g h : Game N G} {l : Loop} {n : ℕ}
        → Step gen g h
        → g.phase ≢ h.phase
        → l ≢ placing
        → Turns
            (record { game = g; stop = false; loop = l; batches = n })
            (record { game = h; stop = false; loop = l; batches = n })
    -- `game_io_server_.Stop()`, when `Run` has returned.
    manager_stops :
        {g : Game N G} {l : Loop} {n : ℕ}
        → g.phase ≡ finished
        → Turns
            (record { game = g; stop = false; loop = l; batches = n })
            (record { game = g; stop = true; loop = l; batches = n })
    -- The tests of `stop_`.
    goes_on :
        {g : Game N G} {n : ℕ}
        → Turns
            (record { game = g; stop = false; loop = testing; batches = n })
            (record { game = g; stop = false; loop = polling; batches = n })
    leaves :
        {g : Game N G} {n : ℕ}
        → Turns
            (record { game = g; stop = true; loop = testing; batches = n })
            (record { game = g; stop = true; loop = left; batches = n })
    -- `epoll_wait` brings a batch, and the batch is handled.
    batch_comes :
        {g : Game N G} {stop : Bool} {n : ℕ}
        → Turns
            (record { game = g; stop = stop; loop = polling; batches = n })
            (record { game = g; stop = stop; loop = handling; batches = counted stop n })
    batch_ends :
        {g : Game N G} {stop : Bool} {n : ℕ}
        → Turns
            (record { game = g; stop = stop; loop = handling; batches = n })
            (record { game = g; stop = stop; loop = testing; batches = n })

  pub data Arrives (t : Threads N G) : Threads N G → Type 0 where
    at_start : Arrives t t
    then_turn : {u v : Threads N G} → Arrives t u → Turns u v → Arrives t v

  -- How the flag, the loop and the batches stand to each other.
  abbrev Stands : Bool → Loop → ℕ → Type 0
  Stands false left n = ⊥
  Stands false testing n = n ≡ 0
  Stands false polling n = n ≡ 0
  Stands false handling n = n ≡ 0
  Stands false placing n = n ≡ 0
  Stands true testing n = n ≤ 1
  Stands true polling n = n ≡ 0
  Stands true handling n = n ≤ 1
  Stands true placing n = n ≤ 1
  Stands true left n = n ≤ 1

  -- Once the flag is set, the game has finished.
  abbrev Over : Bool → Phase → Type 0
  Over false p = Unit
  Over true p = p ≡ finished

  pub record IsComing (start : Game N G) (t : Threads N G) : Type 0 where
    pub reached : Reaches gen start t.game
    pub over : Over t.stop t.game.phase
    pub stands : Stands t.stop t.loop t.batches

  Turns-IsComing :
      {start : Game N G} {t u : Threads N G} → Turns t u → IsComing start t → IsComing start u
  Turns-IsComing (message_comes {g} {h} {stop} step same) r = record {
    reached = then_step r.reached step;
    over = kept_over stop r.over;
    stands = r.stands;
  }
    where
      kept_over : (stop : Bool) → Over stop g.phase → Over stop h.phase
      kept_over true e = sym same ∙ e
      kept_over false e = tt
  Turns-IsComing (search_goes_on {stop} goes) r = record {
    reached = r.reached;
    over = r.over;
    stands = kept stop _ r.stands;
  }
    where
      kept : (stop : Bool) (n : ℕ) → Stands stop handling n → Stands stop placing n
      kept true n h = h
      kept false n h = h
  Turns-IsComing (manager_runs {l} step other free) r = record {
    reached = then_step r.reached step;
    over = tt;
    stands = r.stands;
  }
  Turns-IsComing (manager_stops {l} ends) r = record {
    reached = r.reached;
    over = ends;
    stands = flag_set l _ r.stands;
  }
    where
      flag_set : (l : Loop) (n : ℕ) → Stands false l n → Stands true l n
      flag_set testing n h = omega (arith, h)
      flag_set polling n h = h
      flag_set handling n h = omega (arith, h)
      flag_set placing n h = omega (arith, h)
      flag_set left n h = absurd h
  Turns-IsComing goes_on r = record { reached = r.reached; over = tt; stands = r.stands }
  Turns-IsComing leaves r = record { reached = r.reached; over = r.over; stands = r.stands }
  Turns-IsComing (batch_comes {stop}) r = record {
    reached = r.reached;
    over = r.over;
    stands = one_more stop _ r.stands;
  }
    where
      one_more :
          (stop : Bool) (n : ℕ) → Stands stop polling n → Stands stop handling (counted stop n)
      one_more true n h = omega (arith, h)
      one_more false n h = h
  Turns-IsComing (batch_ends {stop}) r = record {
    reached = r.reached;
    over = r.over;
    stands = kept stop _ r.stands;
  }
    where
      kept : (stop : Bool) (n : ℕ) → Stands stop handling n → Stands stop testing n
      kept true n h = h
      kept false n h = h

  pub Arrives-IsComing :
      {start : Game N G} {t : Threads N G} → Arrives (threads start) t → IsComing start t
  Arrives-IsComing at_start = record { reached = here; over = tt; stands = refl }
  Arrives-IsComing (then_turn before turn) = Turns-IsComing turn (Arrives-IsComing before)

  left-stopped : (stop : Bool) (n : ℕ) → Stands stop left n → (stop ≡ true) × (n ≤ 1)
  left-stopped true n h = (refl, h)
  left-stopped false n h = absurd h

  -- The game has finished with all its states sent, and at most one batch came after the flag was set.
  pub IsComplete : GameConfig N → Threads N G → Type 0
  IsComplete c t =
      (t.game.phase ≡ finished)
      × ((length t.game.sent ≡ c.max_states_count)
          × ((map (λ (s : FieldState N). s.id) t.game.sent ≡ countdown c.max_states_count)
              × (t.batches ≤ 1)))

  -- When `GameServer::Run` has left the event loop, in whatever order the threads took their turns, the
  -- game has finished, exactly `max_states_count` states were sent to the observers, numbered 1, 2, …, and
  -- the loop has waited for at most one batch of events since the flag was set. It asks that the generators
  -- number the players, that `max_players_count` is below 1000 and `max_states_count` below 2 ^ 64.
  pub Arrives-left :
      (c : GameConfig N)
      → Counts gen
      → c.max_states_count < 2 ^ 64
      → (g : G) (unset : ℕ) → gen.next_id g ≡ 0
      → c.max_players_count < 1000
      → {t : Threads N G} → Arrives (threads (start_of (game_server {C = ℕ} c g unset).manager)) t
      → t.loop ≡ left
      → IsComplete c t
  unfolding game_server IsComplete
  Arrives-left c counts narrow g unset fresh few {t} arrives is_left =
      let coming = Arrives-IsComing arrives in
      let (stopped, batches) =
        left-stopped t.stop t.batches
          (subst (λ l. Stands t.stop l t.batches) is_left coming.stands) in
      let over : t.game.phase ≡ finished = subst (λ b. Over b t.game.phase) stopped coming.over in
      let run = Reaches-IsRun gen c counts narrow g unset fresh few coming.reached in
      let stage : Stage finished t.game.manager.state.id (length t.game.sent) c.max_states_count =
        subst (λ p. Stage p t.game.manager.state.id (length t.game.sent) c.max_states_count) over
          run.stage in
      (over, (stage.1, (run.numbers ∙ ap countdown (stage.1), batches)))
