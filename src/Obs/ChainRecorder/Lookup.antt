-- ===== src/Obs/ChainRecorder/Lookup.antt =====
-- What FindByRequestID finds after Record.
use ash_jazz_ai_agent.Prelude.{String, Option, some, ◌≡◌, arith, if◌then◌else◌}
use ash_jazz_ai_agent.Prelude.Dict.{text_key, lookup-insert, ◌≟◌}
use ash_jazz_ai_agent.Prelude.Text.{trim_space}
use ash_jazz_ai_agent.Errors.{Error, Result, ok, err}
use ash_jazz_ai_agent.Obs.ChainRecorder.{
  ChainInput, Chain, Recorder, build_chain, record_chain, find_by_request_id,
}

-- With an error the recorder is as it was. Without one Record returns the input's chain, and of the
-- texts to look for those that trim to the input's request_id find it; every other text finds what it
-- found before.
abbrev pub IsRecorded : ChainInput → Recorder → String → Option Recorder × Result Chain → Type 0
IsRecorded input r wanted (r', err e) = r' ≡ some r
IsRecorded input r wanted (r', ok chain) =
    (chain ≡ build_chain input)
    × (find_by_request_id r' wanted ≡ (
        if input.identity.request_id ≟ trim_space wanted
        then some chain
        else find_by_request_id (some r) wanted))

-- A record that fails changes nothing. One that succeeds returns the input's chain, which is found
-- under the texts that trim to the request_id as it was given; every other text finds what it found
-- before.
pub record_chain-IsRecorded :
    (cancelled : Option Error) (input : ChainInput) (r : Recorder) (wanted : String)
    → IsRecorded input r wanted (record_chain cancelled input (some r))
unfolding record_chain find_by_request_id build_chain
record_chain-IsRecorded cancelled input r wanted =
    ground
      (arith, lookup-insert input.identity.request_id (trim_space wanted) (build_chain input) r)
