-- ===== src/Wire/Status.antt =====
-- crates/studio-core/src/wire.rs: a reply's status byte, as a message.
use Prim.Native.String.{String}
use tuning_tools.Base.{ℕ, ◌==◌, if◌then◌else◌}

abbrev pub status_budget : ℕ
status_budget = 10

abbrev pub status_busy : ℕ
status_busy = 9

unfoldable pub status_message : ℕ → String
status_message status =
    if status == 0
    then "ok"
    else if status == 1
    then "the firmware could not parse the request"
    else if status == 2
    then "the firmware does not know this command"
    else if status == 3
    then "the firmware has no value with this id"
    else if status == 4
    then "this value is read-only"
    else if status == 5
    then "the value is outside the range the firmware allows"
    else if status == 6
    then "the firmware only allows this change while the robot is disarmed"
    else if status == 7
    then "the value's type does not match the firmware's"
    else if status == 8
    then "this session no longer holds the tuning lease"
    else if status == 9
    then "another tool holds the tuning lease"
    else if status == 10
    then "the watch list would exceed the firmware's sample budget"
    else if status == 11
    then "the firmware could not write its flash"
    else "the firmware refused the request"
