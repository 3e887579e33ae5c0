-- ===== src/Server/Launcher.antt =====
-- server/启动.py: the launcher, which starts the server again when it crashes.
use dpmp.Prelude.{
  ℕ, zero, ◌+◌, Bool, true, false, not, ◌&&◌, ◌||◌, Option, none, some, List, [], ◌∷◌,
  if◌then◌else◌, Text, starts_with, text_eq, codes, drop, select, ℤ, pos, negsuc, is_some,
}
use dpmp.Client.Address.{parse_int}

abbrev no_restart_option : Text
no_restart_option = codes "--no-restart"

abbrev delay_option : Text
delay_option = codes "--restart-delay"

-- "--no-restart" in args
unfoldable pub has_arg : Text → List Text → Bool
has_arg x [] = false
has_arg x (a ∷ args) = if text_eq a x then true else has_arg x args

-- `int(…)`, and the delay of three seconds where it raises
abbrev delay_of : Option ℤ → ℤ
delay_of none = pos 3
delay_of (some n) = n

-- The next argument, with what follows it.
abbrev next_arg : List Text → Option (Text × List Text)
next_arg [] = none
next_arg (b ∷ rest) = some (b, rest)

abbrev taken_or : Option (Text × List Text) → ℤ × List Text → ℤ × List Text
taken_or none other = other
taken_or (some (b, rest)) other = (delay_of (parse_int b), rest)

-- The loop over the arguments: the delay, and the arguments without the option that gives it.
unfoldable pub take_delay : List Text → ℤ × List Text
unfolding parse_int
take_delay [] = (pos 3, [])
take_delay (a ∷ rest) =
    let (delay, others) = take_delay rest in
    if text_eq a delay_option && is_some (next_arg rest)
    then taken_or (next_arg rest) (delay, a ∷ others)
    else if starts_with (codes "--restart-delay=") a
    then (delay_of (parse_int (drop 16 a)), rest)
    else (delay, a ∷ others)

pub record Launch : Type 0 where
  pub no_restart : Bool
  pub delay : ℤ
  pub args : List Text

-- The options of the launcher; the other arguments go to the server.
unfoldable pub launch_of : List Text → Launch
unfolding has_arg take_delay
launch_of argv =
    let (delay, args) = take_delay (select (λ a. not (text_eq a no_restart_option)) argv) in
    record { no_restart = has_arg no_restart_option argv; delay = delay; args = args }

-- A run of the server returns a code or is interrupted by Ctrl+C, which the pause after it can be too.
pub data Run : Type 0 where
  returns : ℤ → Bool → Run
  interrupted : Run

-- Where the launcher is after some runs: it has stopped, it has failed in time.sleep, which takes no
-- negative number, or it starts the server again; with the number of crashes.
pub data Standing : Type 0 where
  stopped failed restarting : ℕ → Standing

abbrev is_zero : ℤ → Bool
is_zero (pos zero) = true
is_zero _ = false

abbrev is_negative : ℤ → Bool
is_negative (pos n) = false
is_negative (negsuc n) = true

-- The loop of main, over the runs.
unfoldable pub serve : Launch → ℕ → List Run → Standing
serve l crashes [] = restarting crashes
serve l crashes (interrupted ∷ runs) = stopped crashes
serve l crashes (returns code woken ∷ runs) =
    let later = serve l (crashes + 1) runs in
    if is_zero code || l.no_restart
    then stopped crashes
    else if is_negative l.delay
    then failed (crashes + 1)
    else if woken
    then stopped (crashes + 1)
    else later
