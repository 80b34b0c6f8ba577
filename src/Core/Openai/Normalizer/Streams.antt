-- ===== src/Core/Openai/Normalizer/Streams.antt =====
-- What a normalizer makes of a stream, in whatever chunks it arrives.
use onair.Prelude.{
  String, Bool, ◌≡◌, refl, sym, ap, ◌∙◌, Option, none, some, List, [], ◌∷◌, ◌++◌, Bytes, All, map,
  append-nil, append_assoc,
}
use onair.Core.Openai.Usage.{UsageTotals, add_totals, no_totals}
use onair.Core.Openai.Usage.Collect.{extract_usage}
use onair.Core.Openai.Sse.{
  JsonCodec, SseFrame, event, data_value, data_unparseable, done_frame, pass_through, SseLineParser,
  new_parser,
}
use onair.Core.Openai.Sse
use onair.Core.Openai.Sse.Lines.{joined}
use onair.Core.Openai.Sse.Chunks.{
  read_stream, read_stream-cuts, read_stream-keeps, frame_line, last_frame,
}
use onair.Core.Openai.Sse.Chunks
use onair.Core.Openai.Normalizer.{
  SseNormalizer, handle_frame, handle_frames, handle_data, handle_last, push, finish,
  apply_data_prologue, new_with_usage_visibility,
}

-- The chunks of a stream, one call of `push` for each.
unfoldable pub feed : JsonCodec → SseNormalizer → List Bytes → Bytes × SseNormalizer
unfolding push
feed codec n [] = ([], n)
feed codec n (chunk ∷ chunks) =
    let now = push codec n chunk in
    let later = feed codec now.1 chunks in (now.0 ++ later.0, later.1)

-- A whole stream, and its end.
unfoldable pub normalize : JsonCodec → SseNormalizer → List Bytes → Bytes × SseNormalizer
unfolding feed finish
normalize codec n chunks =
    let fed = feed codec n chunks in let last = finish codec fed.1 in (fed.0 ++ last.0, last.1)

abbrev pub with_parser : SseLineParser → SseNormalizer → SseNormalizer
with_parser parser n = record n { parser = parser }

abbrev in_parser : SseLineParser → Bytes × SseNormalizer → Bytes × SseNormalizer
in_parser parser q = (q.0, with_parser parser q.1)

module _ (codec : JsonCodec) where
  handle_frame-in_parser :
      (parser : SseLineParser) (frame : SseFrame) (n : SseNormalizer)
      → handle_frame codec frame (with_parser parser n)
        ≡ in_parser parser (handle_frame codec frame n)
  unfolding handle_frame handle_data
  handle_frame-in_parser parser (event name line) n = refl
  handle_frame-in_parser parser (data_value value leading_space line) n = refl
  handle_frame-in_parser parser (data_unparseable line) n = refl
  handle_frame-in_parser parser (done_frame line) n = refl
  handle_frame-in_parser parser (pass_through line) n = refl

  handle_frames-in_parser :
      (parser : SseLineParser) (frames : List SseFrame) (n : SseNormalizer)
      → handle_frames codec frames (with_parser parser n)
        ≡ in_parser parser (handle_frames codec frames n)
  unfolding handle_frames
  handle_frames-in_parser parser [] n = refl
  handle_frames-in_parser parser (frame ∷ frames) n =
      rw (handle_frame-in_parser parser frame n)
        (rw (handle_frames-in_parser parser frames (handle_frame codec frame n).1) refl)

  handle_frames-append :
      (frames more : List SseFrame) (n : SseNormalizer)
      → let first = handle_frames codec frames n in
        let rest = handle_frames codec more first.1 in
        handle_frames codec (frames ++ more) n ≡ (first.0 ++ rest.0, rest.1)
  unfolding handle_frames
  handle_frames-append [] more n = refl
  handle_frames-append (frame ∷ frames) more n =
      let now = handle_frame codec frame n in
      let first = handle_frames codec frames now.1 in
      let rest = handle_frames codec more first.1 in
      ap (λ (q : Bytes × SseNormalizer). (now.0 ++ q.0, q.1))
        (handle_frames-append frames more now.1)
      ∙ ap (λ bs. (bs, rest.1)) (sym (append_assoc now.0 first.0 rest.0))

  -- The handling of the frames that the parser gives for the chunks.
  feed-frames :
      (n : SseNormalizer) (chunks : List Bytes)
      → let parsed = Chunks.feed codec n.parser chunks in
        feed codec n chunks ≡ handle_frames codec parsed.0 (with_parser parsed.1 n)
  unfolding feed push Chunks.feed handle_frames
  feed-frames n [] = refl
  feed-frames n (chunk ∷ chunks) =
      let parsed = Sse.push codec n.parser chunk in
      let later = Chunks.feed codec parsed.1 chunks in
      let now = handle_frames codec parsed.0 n in
      let next = with_parser parsed.1 now.1 in
      let kept = handle_frames-in_parser parsed.1 parsed.0 n in
      ap
        (λ (q : Bytes × SseNormalizer).
          (q.0 ++ (feed codec q.1 chunks).0, (feed codec q.1 chunks).1))
        kept
      ∙ ap (λ (q : Bytes × SseNormalizer). (now.0 ++ q.0, q.1)) (feed-frames next chunks)
      ∙ sym (
          handle_frames-append parsed.0 later.0 (with_parser later.1 n)
          ∙ ap
              (λ (q : Bytes × SseNormalizer).
                (q.0 ++ (handle_frames codec later.0 q.1).0, (handle_frames codec later.0 q.1).1))
              (handle_frames-in_parser later.1 parsed.0 n))

  finish-frames :
      (n : SseNormalizer)
      → finish codec n
        ≡ handle_frames codec (last_frame (Sse.finish codec n.parser).0) (with_parser new_parser n)
  unfolding finish handle_last handle_frames last_frame Sse.finish
  finish-frames n = go (Sse.finish codec n.parser).0
    where
      go :
          (o : Option SseFrame)
          → handle_last codec o (with_parser new_parser n)
            ≡ handle_frames codec (last_frame o) (with_parser new_parser n)
      go none = refl
      go (some frame) = rw (append-nil (handle_frame codec frame (with_parser new_parser n)).0) refl

abbrev then_handle : JsonCodec → List SseFrame → Bytes × SseNormalizer → Bytes × SseNormalizer
then_handle codec frames q = let rest = handle_frames codec frames q.1 in (q.0 ++ rest.0, rest.1)

abbrev then_finish : JsonCodec → Bytes × SseNormalizer → Bytes × SseNormalizer
then_finish codec q = let last = finish codec q.1 in (q.0 ++ last.0, last.1)

-- A stream is normalized frame by frame.
pub normalize-frames :
    (codec : JsonCodec) (n : SseNormalizer) (chunks : List Bytes)
    → let fresh = with_parser new_parser n in
      normalize codec fresh chunks ≡ handle_frames codec (read_stream codec chunks) fresh
unfolding normalize read_stream
normalize-frames codec n chunks =
    let fresh = with_parser new_parser n in
    let parsed = Chunks.feed codec new_parser chunks in
    let last = last_frame (Sse.finish codec parsed.1).0 in
    let first = handle_frames codec parsed.0 fresh in
    ap (then_finish codec)
      (feed-frames codec fresh chunks ∙ handle_frames-in_parser codec parsed.1 parsed.0 fresh)
    ∙ ap (λ (q : Bytes × SseNormalizer). (first.0 ++ q.0, q.1))
        (finish-frames codec (with_parser parsed.1 first.1))
    ∙ ap (then_handle codec last) (sym (handle_frames-in_parser codec new_parser parsed.0 fresh))
    ∙ sym (handle_frames-append codec parsed.0 last fresh)

-- The totals of the usage that the frames report, in the form and place that they report it.
abbrev pub count_usage : List SseFrame → UsageTotals → UsageTotals
count_usage [] t = t
count_usage (data_value value leading_space line ∷ frames) t =
    count_usage frames (add_totals t (extract_usage value))
count_usage (frame ∷ frames) t = count_usage frames t

abbrev pub IsOpaque : SseFrame → Type 0
IsOpaque (data_value value leading_space line) = ⊥
IsOpaque frame = Unit

handle_frames-counts :
    (codec : JsonCodec) (frames : List SseFrame) (n : SseNormalizer)
    → (handle_frames codec frames n).1.usage ≡ count_usage frames n.usage
unfolding handle_frames handle_frame handle_data extract_usage apply_data_prologue
handle_frames-counts codec [] n = refl
handle_frames-counts codec (event name line ∷ frames) n = handle_frames-counts codec frames _
handle_frames-counts codec (data_value value leading_space line ∷ frames) n =
    handle_frames-counts codec frames _
handle_frames-counts codec (data_unparseable line ∷ frames) n = handle_frames-counts codec frames _
handle_frames-counts codec (done_frame line ∷ frames) n = handle_frames-counts codec frames _
handle_frames-counts codec (pass_through line ∷ frames) n = handle_frames-counts codec frames _

handle_frames-opaque :
    (codec : JsonCodec) (frames : List SseFrame) (n : SseNormalizer)
    → All IsOpaque frames
    → (handle_frames codec frames n).0 ≡ joined (map frame_line frames)
unfolding handle_frames handle_frame
handle_frames-opaque codec [] n h = refl
handle_frames-opaque codec (event name line ∷ frames) n h =
    ap (λ bs. line ++ bs) (handle_frames-opaque codec frames _ h.1)
handle_frames-opaque codec (data_value value leading_space line ∷ frames) n h = elim h.0 [ ]
handle_frames-opaque codec (data_unparseable line ∷ frames) n h =
    ap (λ bs. line ++ bs) (handle_frames-opaque codec frames _ h.1)
handle_frames-opaque codec (done_frame line ∷ frames) n h =
    ap (λ bs. line ++ bs) (handle_frames-opaque codec frames _ h.1)
handle_frames-opaque codec (pass_through line ∷ frames) n h =
    ap (λ bs. line ++ bs) (handle_frames-opaque codec frames _ h.1)

-- The output, and the state with the usage, are the same however the stream is cut into chunks.
pub normalize-cuts :
    (codec : JsonCodec) (n : SseNormalizer) (chunks pieces : List Bytes)
    → joined chunks ≡ joined pieces
    → let fresh = with_parser new_parser n in
      normalize codec fresh chunks ≡ normalize codec fresh pieces
normalize-cuts codec n chunks pieces same =
    normalize-frames codec n chunks
    ∙ ap (λ frames. handle_frames codec frames (with_parser new_parser n))
        (read_stream-cuts codec chunks pieces same)
    ∙ sym (normalize-frames codec n pieces)

-- The usage that is billed is what the parsed data values of the stream report: it depends neither
-- on the chunks, nor on whether the client is shown it, nor on the names of the models.
pub normalize-counts :
    (codec : JsonCodec) (backend_model public_model : Option String) (visible : Bool)
    (chunks : List Bytes)
    → (normalize codec
        (new_with_usage_visibility backend_model public_model visible)
        chunks).1.usage
      ≡ count_usage (read_stream codec chunks) no_totals
unfolding new_with_usage_visibility
normalize-counts codec backend_model public_model visible chunks =
    let n = new_with_usage_visibility backend_model public_model visible in
    ap (λ (q : Bytes × SseNormalizer). q.1.usage) (normalize-frames codec n chunks)
    ∙ handle_frames-counts codec (read_stream codec chunks) n

-- A stream with no data that parses reaches the client byte for byte.
pub normalize-opaque :
    (codec : JsonCodec) (n : SseNormalizer) (chunks : List Bytes)
    → All IsOpaque (read_stream codec chunks)
    → (normalize codec (with_parser new_parser n) chunks).0 ≡ joined chunks
normalize-opaque codec n chunks h =
    ap (λ (q : Bytes × SseNormalizer). q.0) (normalize-frames codec n chunks)
    ∙ handle_frames-opaque codec (read_stream codec chunks) (with_parser new_parser n) h
    ∙ read_stream-keeps codec chunks
