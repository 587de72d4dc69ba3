-- ===== src/FakeProvider/Streaming.antt =====
-- What the goroutine of a fake stream sends.
use ash_jazz_ai_agent.Prelude.{
  ℕ, suc, ◌≤◌, List, [], ◌∷◌, length, Option, none, some, ◌≡◌, arith, Option-cases, inl, inr,
}
use ash_jazz_ai_agent.Prelude.Dict.{lookup, text_key}
use ash_jazz_ai_agent.Errors.{Error}
use ash_jazz_ai_agent.Llm.{ChatChunk, ChatRequest}
use ash_jazz_ai_agent.FakeProvider.{FakeProvider, Channel, send_chunks, fake_chat_stream}

-- No more chunks are sent than there are.
length-send_chunks :
    (ended : ℕ → Option Error) (n : ℕ) (chunks : List ChatChunk)
    → length (send_chunks ended n chunks) ≤ length chunks
unfolding send_chunks
length-send_chunks ended n [] = omega arith
length-send_chunks ended n (chunk ∷ chunks) =
    let later = length-send_chunks ended (suc n) chunks in
    elim (Option-cases (ended n)) [
      | inl e ↦ rw (e, send_chunks) (omega (arith, later))
      | inr (cause, e) ↦ rw (e, send_chunks) (omega arith)
    ]

-- The buffer of a stream has room for all that its goroutine sends, so that the goroutine ends even when
-- nobody reads.
pub fake_chat_stream-fits :
    (p : FakeProvider) (before : Option Error) (ended : ℕ → Option Error) (req : Option ChatRequest)
    (channel : Channel)
    → (fake_chat_stream p before ended req).0 ≡ some channel
    → length channel.chunks ≤ channel.buffer
unfolding fake_chat_stream
fake_chat_stream-fits p (some e) ended req channel h = ground (arith, h)
fake_chat_stream-fits p none ended none channel h = ground (arith, h)
fake_chat_stream-fits p none ended (some req) channel h =
    elim (Option-cases (lookup req.model p.stream_errors)) [
      | inr (e, m) ↦ ground (arith, h, m)
      | inl m ↦ elim (Option-cases (lookup req.model p.stream_chunks)) [
        | inl n ↦ ground (arith, h, m, n)
        | inr (chunks, n) ↦ ground (arith, h, m, n, length-send_chunks ended 0 chunks)
      ]
    ]
