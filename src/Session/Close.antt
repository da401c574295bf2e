-- ===== src/Session/Close.antt =====
-- What `run_connected_session` of leantty_ssh/src/lib.rs reports when a session is closed.
use leantty.Prelude.{Bool, true, false, List, ◌∷◌, ◌++◌, none, some, ◌≡◌, err}
use leantty.Registry.{jump, target}
use leantty.Events.{minus_one}
use leantty.Session.Loop.{
  exit_status, keepalive_timeout, TaskResult, Turn, channel_read, target_ended, jump_ended, Loop,
  Next, again, broken, Context,
}
use leantty.Session.Finish.{
  SessionClose, normal, timed_out, Afterwards, finish, run_connected_session,
}

-- What the end of a connection means.
abbrev told_by : TaskResult → SessionClose → SessionClose
told_by (err keepalive_timeout) other = other
told_by _ other = normal minus_one

-- The report that the last turn of a session asks for. A channel that ends without a word is explained
-- by the jump connection, if there is one and it is over, and else by the target connection.
abbrev pub verdict : Context → Afterwards → Turn → SessionClose
verdict c a (channel_read (some (exit_status n)) answer) = normal n
verdict c a (channel_read none answer) = elim c.has_jump [
  | false ↦ told_by a.target_result (timed_out minus_one target)
  | true ↦ elim a.jump_now [
    | some result ↦ told_by result (timed_out minus_one jump)
    | none ↦ told_by a.target_result (timed_out minus_one target)
  ]
]
verdict c a (target_ended result) = told_by result (timed_out minus_one target)
verdict c a (jump_ended result) = told_by result (timed_out minus_one jump)
verdict c a _ = normal minus_one

-- No exit code is set while the loop runs.
abbrev HasNoExit : Next → Type 0
HasNoExit (again l) = l.exit_code ≡ minus_one
HasNoExit (broken l e) = Unit

abbrev IsBroken : Next → Type 0
IsBroken (again l) = ⊥
IsBroken (broken l e) = Unit

abbrev closing : Context → Afterwards → Next → SessionClose
closing c a (again l) = normal minus_one
closing c a (broken l e) = (finish c a l e).1

-- A session is closed by one turn: before it, it was open, and its report is what that turn asks for.
abbrev pub ClosesBy : Context → Afterwards → Bool → List Turn → SessionClose → Type 0
ClosesBy c a output_paused turns closed =
    (before : List Turn) × (last : Turn) × (after : List Turn) × (turns ≡ before ++ last ∷ after)
    × ((run_connected_session c a output_paused before).1 ≡ none)
    × (closed ≡ verdict c a last)
