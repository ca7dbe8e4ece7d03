-- ===== src/RttTuning.antt =====
-- crates/studio-core/src/rtt_tuning.rs: tuning requests over the firmware's control channel. Whoever waits
-- for an answer is a channel's number; an operation yields the answers that it sends, in their order.
pub mod Calls
pub mod Answers
pub mod Served
mod History
mod Drained
mod Returns
mod Tests
use tuning_tools.Base.{
  ℕ, zero, suc, ◌+◌, ◌-◌, ◌%◌, ◌^◌, Bool, true, false, ◌&&◌, ◌||◌, not, Option, none, some, List,
  [], ◌∷◌, ◌++◌, length, ltb, ◌==◌, if◌then◌else◌,
}
use tuning_tools.Base.Bytes.{to_le_bytes}
use tuning_tools.Base.Dict.{lookup, insert, remove}
use tuning_tools.Carrier
use tuning_tools.Carrier.{MemoryAccess, Result}
use tuning_tools.Message.{Message, Except, ok, err}
use tuning_tools.Rtt.Channels.{RttDuplex, new_duplex, attach, duplex_read, duplex_write}
use tuning_tools.Wire
use tuning_tools.Wire.{Frame, Decoder, feed}
use tuning_tools.Wire.Cmd
use tuning_tools.Wire.Reader.{slot}
use tuning_tools.Link.{reply_timeout, save_timeout, next_seq, or_else}

-- "telemetry" and "control".
abbrev pub up_channel : List ℕ
up_channel = 116 ∷ 101 ∷ 108 ∷ 101 ∷ 109 ∷ 101 ∷ 116 ∷ 114 ∷ 121 ∷ []

abbrev pub down_channel : List ℕ
down_channel = 99 ∷ 111 ∷ 110 ∷ 116 ∷ 114 ∷ 111 ∷ 108 ∷ []

abbrev pub lease_renew : ℕ
lease_renew = 1000000000

abbrev pub status_lease_lost : ℕ
status_lease_lost = 8

-- What a read of the up channel takes at most.
abbrev pub buffer_len : ℕ
buffer_len = 1024

pub data FramedRequest : Type 0 where
  write : ℕ → ℕ → ℕ → FramedRequest
  discard save : FramedRequest

pub record Pending : Type 0 where
  -- `none` for a lease renewal, which nobody waits on.
  pub reply : Option ℕ
  pub deadline : ℕ

pub record RttTuning : Type 0 where
  pub duplex : RttDuplex
  pub decoder : Decoder
  pub seq : ℕ
  pub token : ℕ
  pub leased_at : Option ℕ
  pub lease_refused : Option Message
  pub pending : List (ℕ × Pending)

unfoldable pub new : ℕ → ℕ → RttTuning
new address token = record {
  duplex = new_duplex address up_channel down_channel;
  decoder = Wire.empty;
  seq = 0;
  token = token;
  leased_at = none;
  lease_refused = none;
  pending = [];
}

abbrev pub Answer : Type 0
Answer = ℕ × Except Message (Unit {0})

abbrev pub code_of : FramedRequest → ℕ
code_of (write id tag bits) = Cmd.write
code_of discard = Cmd.discard
code_of save = Cmd.save

abbrev pub payload_of : ℕ → FramedRequest → List ℕ
payload_of token (write id tag bits) = to_le_bytes 4 token ++ (to_le_bytes 4 id ++ slot tag bits)
payload_of token discard = to_le_bytes 4 token
payload_of token save = to_le_bytes 4 token

abbrev pub timeout_of : FramedRequest → ℕ
timeout_of (write id tag bits) = reply_timeout
timeout_of discard = reply_timeout
timeout_of save = save_timeout

-- The frame of a payload, of 4 or 16 bytes here; a longer one than 256 would panic.
abbrev pub frame_or_panic : Option (List ℕ) → List ℕ
frame_or_panic none = []
frame_or_panic (some bytes) = bytes

unfoldable pub frame : ℕ → ℕ → List ℕ → List ℕ
frame code seq payload = frame_or_panic (Wire.encode code seq payload)

-- What becomes of the request whose frame was written, or not.
unfoldable pub sent : Result Bool → Pending → RttTuning → Except Message (Unit {0}) × RttTuning
sent (Carrier.ok true) p t = (ok tt, record t { pending = insert t.seq p t.pending })
sent (Carrier.ok false) p t = (err Message.control_full, t)
sent (Carrier.err e) p t = (err (Message.carrier e), t)

abbrev pub status_of : List ℕ → ℕ
status_of [] = 1
status_of (status ∷ body) = status

abbrev pub is_lease_reply : Frame → Bool
is_lease_reply f = f.cmd == Cmd.lease + Cmd.reply

-- A lease that the firmware lost, or refuses, is asked for again.
abbrev pub loses_lease : Frame → Bool
loses_lease f =
    let status = status_of f.payload in
    status == status_lease_lost || (is_lease_reply f && not (status == 0))

abbrev pub refusal_of : ℕ → Option Message
refusal_of status = if status == 0 then none else some (Message.refused status)

-- The lease's state behind a reply to the request of the number.
unfoldable pub note_reply : Frame → RttTuning → RttTuning
note_reply f t = record t {
  pending = remove f.seq t.pending;
  lease_refused = if is_lease_reply f then refusal_of (status_of f.payload) else t.lease_refused;
  leased_at = if loses_lease f then none else t.leased_at;
}

-- A request that was sent behind a refused LEASE is refused for its reason.
unfoldable pub result_of : ℕ → Option Message → Except Message (Unit {0})
result_of status refused =
    if status == 0
    then ok tt
    else if status == status_lease_lost
    then err (or_else refused (Message.refused status))
    else err (Message.refused status)

-- What a poll has done so far: whether a request finished, the last error, and the answers.
pub record Polled : Type 0 where
  pub finished : Bool
  pub error : Option Message
  pub answers : List Answer

abbrev pub error_of : Except Message (Unit {0}) → Option Message → Option Message
error_of (ok u) last = last
error_of (err e) last = some e

abbrev pub tell : Option ℕ → Except Message (Unit {0}) → Polled → Polled
tell none r out = record out { error = error_of r out.error }
tell (some k) r out = record out { finished = true; answers = out.answers ++ ((k, r) ∷ []) }

unfoldable pub on_pending : Frame → Option Pending → Polled × RttTuning → Polled × RttTuning
unfolding note_reply result_of
on_pending f none s = s
on_pending f (some p) (out, t) =
    let t' = note_reply f t in
    (tell p.reply (result_of (status_of f.payload) t'.lease_refused) out, t')

unfoldable pub on_frames : List Frame → Polled × RttTuning → Polled × RttTuning
unfolding on_pending
on_frames [] s = s
on_frames (f ∷ fs) (out, t) = on_frames fs (on_pending f (lookup f.seq t.pending) (out, t))

unfoldable pub late_seqs : ℕ → List (ℕ × Pending) → List ℕ
late_seqs now [] = []
late_seqs now ((seq, p) ∷ rest) =
    let others = late_seqs now rest in if ltb p.deadline now then seq ∷ others else others

abbrev pub tell_late : Option ℕ → Polled → Polled
tell_late none out = out
tell_late (some k) out = tell (some k) (err Message.no_answer) out

abbrev pub give_up : Option Pending → Polled → Polled
give_up none out = out
give_up (some p) out = tell_late p.reply out

unfoldable pub expire_all : List ℕ → Polled × RttTuning → Polled × RttTuning
expire_all [] s = s
expire_all (seq ∷ seqs) (out, t) =
    expire_all seqs
      (give_up (lookup seq t.pending) out, record t { pending = remove seq t.pending })

abbrev pub is_renewal_due : Option ℕ → ℕ → Bool
is_renewal_due none now = false
is_renewal_due (some at) now = not (ltb (now - at) lease_renew)

abbrev pub tell_closed : Option ℕ → List Answer → List Answer
tell_closed none others = others
tell_closed (some k) others = (k, err Message.session_closed) ∷ others

-- The answers to those who still wait when the session closes.
unfoldable pub closing_answers : List (ℕ × Pending) → List Answer
closing_answers [] = []
closing_answers ((seq, p) ∷ rest) = let others = closing_answers rest in tell_closed p.reply others
