-- ===== src/RttTuning/Tests.antt =====
-- A target that serves requests over RTT and never replies, and the theorems about sessions at it.
use tuning_tools.Base.{ℕ, ◌≡◌, refl, inl, arith, none, some, List, [], ◌∷◌, ◌++◌}
use tuning_tools.Carrier.Ram.{poke, bytes_at}
use tuning_tools.Carrier.Mock.{MockLink, mock_memory, read, write, touches}
use tuning_tools.Message.{Message, err}
use tuning_tools.Rtt.{Ring, read_ring, write_ring}
use tuning_tools.Rtt.Channels.{attach, duplex_write, new_duplex, duplex_read}
use tuning_tools.Rtt.Channels.Attach.{IsUsable, attach-IsUsable}
use tuning_tools.Wire.{encode, feed}
use tuning_tools.Base.Dict.{insert, lookup}
use tuning_tools.RttTuning.{RttTuning, FramedRequest, Polled, up_channel, down_channel, new}
use tuning_tools.RttTuning.Calls.{State, attach_tuning, submit, poll, close}
use tuning_tools.RttTuning.Answers.{answered}
use tuning_tools.RttTuning.History.{Call, session, asked, answered-session}
use tuning_tools.RttTuning.Drained.{AreSeparate}
use tuning_tools.RttTuning.Returns.{poll-Returns}

-- A control block at 76 with one channel each way, of 64 bytes each.
abbrev block : List ℕ
block =
    83 ∷ 69 ∷ 71 ∷ 71 ∷ 69 ∷ 82 ∷ 32 ∷ 82 ∷ 84 ∷ 84 ∷ 0 ∷ 0 ∷ 0 ∷ 0 ∷ 0 ∷ 0 ∷ 1 ∷ 0 ∷ 0 ∷ 0 ∷ 1 ∷ 0
    ∷ 0 ∷ 0 ∷ 44 ∷ 1 ∷ 0 ∷ 0 ∷ 144 ∷ 1 ∷ 0 ∷ 0 ∷ 64 ∷ 0 ∷ 0 ∷ 0 ∷ 0 ∷ 0 ∷ 0 ∷ 0 ∷ 0 ∷ 0 ∷ 0 ∷ 0 ∷ 0
    ∷ 0 ∷ 0 ∷ 0 ∷ 64 ∷ 1 ∷ 0 ∷ 0 ∷ 244 ∷ 1 ∷ 0 ∷ 0 ∷ 64 ∷ 0 ∷ 0 ∷ 0 ∷ 0 ∷ 0 ∷ 0 ∷ 0 ∷ 0 ∷ 0 ∷ 0 ∷ 0
    ∷ 0 ∷ 0 ∷ 0 ∷ 0 ∷ []

abbrev serving : MockLink
serving = record {
  ram =
      poke (poke (poke (λ i. 0) 76 block) 300 (up_channel ++ (0 ∷ []))) 320
        (down_channel ++ (0 ∷ []));
  faults = [];
  reads = 0;
}

-- A SAVE that is asked for at once, and has not been answered three seconds later.
abbrev calls : List (Call × (ℕ × MockLink))
calls =
    (Call.attaches, (10, serving))
    ∷ (Call.submits FramedRequest.save 7, (20, serving))
    ∷ (Call.polls, (30, serving))
    ∷ (Call.polls, (5000000000, serving))
    ∷ (Call.submits FramedRequest.discard 8, (5000000010, serving))
    ∷ []

times_out :
    session mock_memory (λ bs. bs) 65 calls none (new 76 5)
    ≡ some ((7, err Message.no_answer) ∷ (8, err Message.session_closed) ∷ [])
unfolding session new attach_tuning attach submit poll close write_ring read_ring read write poke
    bytes_at touches duplex_write new_duplex encode insert duplex_read feed lookup
times_out = refl

answered-session_example :
    answered 7 ((7, err Message.no_answer) ∷ (8, err Message.session_closed) ∷ [])
    ≡ asked mock_memory (λ bs. bs) 7 calls
answered-session_example =
    answered-session mock_memory (λ bs. bs) 65 calls none 76 5
      ((7, err Message.no_answer) ∷ (8, err Message.session_closed) ∷ []) 7 (omega arith) times_out

abbrev up_ring : Ring
up_ring = record { descriptor = 100; buffer = 400; size = 64 }

abbrev down_ring : Ring
down_ring = record { descriptor = 124; buffer = 500; size = 64 }

abbrev attached_tuning : RttTuning
attached_tuning =
    let t = new 76 5 in record t { duplex = record t.duplex { rings = some (up_ring, down_ring) } }

attached-AreSeparate : AreSeparate attached_tuning.duplex.rings
attached-AreSeparate = record { apart = inl (omega arith); word = omega arith }

poll-Returns_example :
    (r : Polled × State mock_memory (λ bs. bs)) × (poll mock_memory
        (λ bs. bs)
        65
        30
        (submit mock_memory (λ bs. bs) 20 FramedRequest.save 7 (attached_tuning, serving)).1
      ≡ some r)
unfolding submit new duplex_write write_ring read write poke bytes_at touches encode insert
poll-Returns_example =
    poll-Returns mock_memory (λ bs. bs) 65 30
      (submit mock_memory (λ bs. bs) 20 FramedRequest.save 7 (attached_tuning, serving)).1
      attached-AreSeparate (omega arith)

-- The search finds both channels of the control block.
attach-IsUsable_example :
    IsUsable (record (new 76 5).duplex { last_try = some 10; rings = some (up_ring, down_ring) })
unfolding new new_duplex attach read touches poke bytes_at
attach-IsUsable_example =
    attach-IsUsable mock_memory (λ bs. bs) 10 (new 76 5).duplex serving (record { usable = tt })
