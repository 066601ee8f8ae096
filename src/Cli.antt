-- ===== src/Cli.antt =====
-- Services/source/cli/cli.c: the commands `echo`, `hello` and `time`. The command interpreter calls
-- `echo` once for each parameter.
pub mod Laws
pub mod App
pub mod Buffers
pub mod Ends
pub mod Files
pub mod Listing
pub mod Time
use ex2_services.Base.{
  ℕ, zero, suc, ◌+◌, Bool, true, false, Option, none, some, List, [], ◌∷◌, ◌++◌, ◌==◌,
  if◌then◌else◌,
}
use ex2_services.Csp.Packet.{minus_one}
use ex2_services.TimeManagement.{Rtc}

-- What a call of a command leaves: whether there is more to come, and the text in the buffer, which
-- is zero before the call.
abbrev pub Output : Type 0
Output = Bool × List ℕ

-- The branch of `prvEchoCommand` with parameter number `n`, which FreeRTOS_CLIGetParameter gives or
-- not. Of the parameter, and the space or the end behind it, snprintf stores one character more
-- than its length: a space.
unfoldable pub echo_parameter : ℕ → Option (List ℕ) → Output × ℕ
echo_parameter n (some parameter) = ((true, parameter ++ 32 ∷ []), suc n)
echo_parameter n none = ((false, 13 ∷ 10 ∷ []), 0)

-- `prvEchoCommand`, with `get_parameter` of the command string and the static `parameter_num`.
unfoldable pub prv_echo_command : (ℕ → Option (List ℕ)) → ℕ → Output × ℕ
prv_echo_command get_parameter zero = ((true, []), 1)
prv_echo_command get_parameter (suc n) = echo_parameter (suc n) (get_parameter (suc n))

unfoldable pub answer_more : List ℕ → Option (List (List ℕ) × ℕ) → Option (List (List ℕ) × ℕ)
answer_more text none = none
answer_more text (some (texts, n)) = some (text ∷ texts, n)

-- The loop of `cli_app`, which calls the interpreter until nothing is to follow: the texts, and
-- `parameter_num` behind the last; `none` where the fuel runs out.
unfoldable pub answers : ℕ → (ℕ → Option (List ℕ)) → ℕ → Option (List (List ℕ) × ℕ)
answers zero get_parameter parameter_num = none
answers (suc fuel) get_parameter parameter_num =
    let ((more_data, text), n) = prv_echo_command get_parameter parameter_num in
    let rest = answers fuel get_parameter n in
    if more_data then answer_more text rest else some (text ∷ [], n)

-- What `time` and `hello` put into the buffer. `time_is` is the decimal number and the end of the line.
pub data Text : Type 0 where
  untouched could_not_get_time failed_to_set_time not_sure hello : Text
  time_is : ℕ → Text

-- `prvTimeCommand`. `rtc` is the driver of the clock, whose status -1 is 255, and `atoi` that of the
-- C library; the command is never called again for more.
unfoldable pub prv_time_command :
    {W : Type 0} → Rtc W → (List ℕ → ℕ) → ℕ → (ℕ → Option (List ℕ)) → W → Text × W
prv_time_command rtc atoi num_parameters get_parameter w =
    let (get_status, unix_time) = rtc.get_unix w in
    if num_parameters == 0
    then (if get_status == minus_one then (could_not_get_time, w) else (time_is unix_time, w))
    else elim (get_parameter 1) [
      | none ↦ (not_sure, w)
      | some parameter ↦
          let (set_status, w₂) = rtc.set_unix (atoi parameter) w in
          (if set_status == minus_one then failed_to_set_time else untouched, w₂)
    ]

unfoldable pub prv_hello_command : Text
prv_hello_command = hello
