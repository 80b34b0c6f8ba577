-- ===== src/Core/Openai/ResponsesStream/Balance.antt =====
-- How often a step of the stream writes `response.completed`, and what it says of it in its state.
use onair.Prelude.{
  and_step, ℕ, suc, ◌+◌, ◌≡◌, refl, String, ◌==◌, Bool, true, false, if◌then◌else◌, if_cases,
  Option, none, some, and_then, List, [], ◌∷◌, ◌++◌, arith, is_empty,
}
use onair.Core.Openai.Json.{Value, Items, Entries, done, item, as_str, get_entry}
use onair.Core.Openai.ResponsesStream.{
  Output, raw, sse_event, ToolCalls, StreamToolCall, ResponsesSseNormalizer,
}
use onair.Core.Openai.ResponsesStream.Deltas.{
  Step, start_response_events, start_text_events, write_text, text_delta, added_event,
  arguments_event, named_call, call_events, function_events, tool_call_delta,
  process_tool_call_deltas,
}
use onair.Core.Openai.ResponsesStream.Frames.{
  finished_text, finished_calls, closing_events, finish_response,
}

-- The events of a name among what is written.
abbrev pub count_events : String → List Output → ℕ
count_events name [] = 0
count_events name (raw line ∷ os) = count_events name os
count_events name (sse_event n v ∷ os) =
    let rest = count_events name os in if n == name then suc rest else rest

abbrev pub completions : List Output → ℕ
completions os = count_events "response.completed" os

completions-append :
    (os ps : List Output) → completions (os ++ ps) ≡ completions os + completions ps
completions-append [] ps = omega arith
completions-append (raw line ∷ os) ps = completions-append os ps
completions-append (sse_event n v ∷ os) ps = ground (arith, completions-append os ps)

abbrev pub flag : Bool → ℕ
flag false = 0
flag true = 1

-- A step completes the response once, if at all, and says so in the state.
pub record Balanced (n : ResponsesSseNormalizer) (s : Step) : Type 0 where
  pub balance : completions s.0 + flag n.completed ≡ flag s.1.completed

pub and_step-Balanced :
    (n : ResponsesSseNormalizer) (first : Step) (next : ResponsesSseNormalizer → Step)
    → Balanced n first
    → ((m : ResponsesSseNormalizer) → Balanced m (next m))
    → Balanced n (and_step first next)
and_step-Balanced n first next h k = record {
  balance =
      omega (arith, h.balance, (k first.1).balance, completions-append first.0 (next first.1).0);
}

pub start-Balanced : (n : ResponsesSseNormalizer) → Balanced n (start_response_events n)
unfolding start_response_events
start-Balanced n =
    if_cases (Balanced n) n.response_started (λ t. record { balance = omega arith })
      (λ f. record { balance = omega arith })

start_text-Balanced : (n : ResponsesSseNormalizer) → Balanced n (start_text_events n)
unfolding start_text_events
start_text-Balanced n =
    if_cases (Balanced n) n.text_started (λ t. record { balance = omega arith })
      (λ f. record { balance = omega arith })

pub text-Balanced : (o : Option String) (n : ResponsesSseNormalizer) → Balanced n (text_delta o n)
unfolding text_delta write_text
text-Balanced none n = record { balance = omega arith }
text-Balanced (some text) n =
    if_cases (Balanced n) (is_empty text) (λ t. record { balance = omega arith })
      (λ f.
        and_step-Balanced n (start_text_events n) (write_text text) (start_text-Balanced n)
          (λ m. record { balance = omega arith }))

added-quiet : (i : ℕ) (t : StreamToolCall) → completions (added_event i t).0 ≡ 0
unfolding added_event
added-quiet i t = ground arith

arguments-quiet :
    (i : ℕ) (o : Option String) (t : StreamToolCall) → completions (arguments_event i o t).0 ≡ 0
unfolding arguments_event
arguments-quiet i none t = refl
arguments-quiet i (some arguments) t =
    if_cases (λ (r : List Output × StreamToolCall). completions r.0 ≡ 0) (is_empty arguments)
      (λ e. refl) (λ e. refl)

both-quiet :
    (os ps : List Output) → completions os ≡ 0 → completions ps ≡ 0 → completions (os ++ ps) ≡ 0
both-quiet os ps h k = omega (arith, h, k, completions-append os ps)

call-quiet :
    (i : ℕ) (o : Option String) (t : StreamToolCall) → completions (call_events i o t).0 ≡ 0
unfolding call_events
call-quiet i o t =
    both-quiet (added_event i t).0 (arguments_event i o (added_event i t).1).0 (added-quiet i t)
      (arguments-quiet i o (added_event i t).1)

function-quiet :
    (i : ℕ) (o : Option Entries) (t : StreamToolCall) → completions (function_events i o t).0 ≡ 0
unfolding function_events
function-quiet i none t = refl
function-quiet i (some function) t =
    call-quiet i (and_then (get_entry function "arguments") as_str) (named_call i function t)

tool_call-Balanced : (v : Value) (n : ResponsesSseNormalizer) → Balanced n (tool_call_delta v n)
unfolding tool_call_delta
tool_call-Balanced v n = record { balance = omega (arith, function-quiet _ _ _) }

pub tool_calls-Balanced :
    (vs : Items) (n : ResponsesSseNormalizer) → Balanced n (process_tool_call_deltas vs n)
unfolding process_tool_call_deltas
tool_calls-Balanced done n = record { balance = omega arith }
tool_calls-Balanced (item v vs) n =
    and_step-Balanced n (tool_call_delta v n) (process_tool_call_deltas vs) (tool_call-Balanced v n)
      (tool_calls-Balanced vs)

finished_text-quiet : (n : ResponsesSseNormalizer) → completions (finished_text n).0 ≡ 0
unfolding finished_text
finished_text-quiet n =
    if_cases (λ (r : List Output × List Value). completions r.0 ≡ 0) n.text_started (λ t. refl)
      (λ f. refl)

finished_calls-quiet : (ts : ToolCalls) → completions (finished_calls ts).0 ≡ 0
unfolding finished_calls
finished_calls-quiet [] = refl
finished_calls-quiet ((index, t) ∷ ts) = finished_calls-quiet ts

ended_once :
    (os ps : List Output) (v : Value)
    → completions os ≡ 0
    → completions ps ≡ 0
    → completions (os ++ (ps ++ (sse_event "response.completed" v ∷ []))) ≡ 1
ended_once os ps v h k = omega (
  arith,
  h,
  k,
  completions-append os (ps ++ (sse_event "response.completed" v ∷ [])),
  completions-append ps (sse_event "response.completed" v ∷ []),
)

closing-once : (n : ResponsesSseNormalizer) → completions (closing_events n) ≡ 1
unfolding closing_events
closing-once n =
    ended_once (finished_text n).0 (finished_calls n.tool_calls).0 _ (finished_text-quiet n)
      (finished_calls-quiet n.tool_calls)

pub finish_response-Balanced : (n : ResponsesSseNormalizer) → Balanced n (finish_response n)
unfolding finish_response
finish_response-Balanced n = ended n.completed refl
  where
    ended : (b : Bool) → n.completed ≡ b → Balanced n (finish_response n)
    ended true e = rw e (record { balance = omega arith })
    ended false e =
        rw e (record { balance = omega (arith, closing-once (record n { completed = true })) })

pub quiet-Balanced : (n : ResponsesSseNormalizer) → Balanced n ([], n)
quiet-Balanced n = record { balance = omega arith }
