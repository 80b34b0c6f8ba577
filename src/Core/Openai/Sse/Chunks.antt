-- ===== src/Core/Openai/Sse/Chunks.antt =====
-- Streams that arrive in chunks: what the line parser makes of them does not depend on the cuts.
use onair.Prelude.{
  ◌≡◌, refl, sym, ap, ◌∙◌, Option, none, some, List, [], ◌∷◌, ◌++◌, map, Bytes, append-nil,
  append_assoc, map-append, arith,
}
use onair.Core.Openai.Sse.{
  JsonCodec, SseFrame, event, data_value, data_unparseable, done_frame, pass_through, SseLineParser,
  parse_sse_line, push, finish, new_parser, left_over, take_line,
}
use onair.Core.Openai.Sse.Lines.{
  joined, IsUnfinished, lines, lines-append, drain-none, drain-ends, drain-joins,
}

-- The chunks of a stream, one call of `push` for each.
unfoldable pub feed : JsonCodec → SseLineParser → List Bytes → List SseFrame × SseLineParser
unfolding push
feed codec parser [] = ([], parser)
feed codec parser (chunk ∷ chunks) =
    let now = push codec parser chunk in
    let later = feed codec now.1 chunks in (now.0 ++ later.0, later.1)

abbrev framed : JsonCodec → List Bytes × Bytes → List SseFrame × SseLineParser
framed codec q = (map (parse_sse_line codec) q.0, record { pending = q.1 })

-- Two pushes are one push of both chunks.
push-push :
    (codec : JsonCodec) (parser : SseLineParser) (a b : Bytes)
    → let first = push codec parser a in
      let second = push codec first.1 b in
      push codec parser (a ++ b) ≡ (first.0 ++ second.0, second.1)
unfolding push
push-push codec parser a b =
    let first = lines (parser.pending ++ a) in
    let rest = lines (first.1 ++ b) in
    ap (λ bs. framed codec (lines bs)) (sym (append_assoc parser.pending a b))
    ∙ ap (framed codec) (lines-append (parser.pending ++ a) b)
    ∙ ap (λ fs. (fs, (framed codec ([], rest.1)).1))
        (map-append (parse_sse_line codec) first.0 rest.0)

-- A parser between two calls holds no whole line: so `new` leaves it, and every push.
abbrev pub IsDrained : SseLineParser → Type 0
IsDrained parser = IsUnfinished parser.pending

-- The loop of a push ends because no line is left, not because it runs out of turns.
pub push-IsDrained :
    (codec : JsonCodec) (parser : SseLineParser) (chunk : Bytes)
    → IsDrained (push codec parser chunk).1
unfolding push
push-IsDrained codec parser chunk = drain-ends _ (parser.pending ++ chunk) (omega arith)

push-nil :
    (codec : JsonCodec) (parser : SseLineParser)
    → IsDrained parser
    → push codec parser [] ≡ ([], parser)
unfolding push
push-nil codec parser h = rw (append-nil parser.pending) (rw (drain-none _ parser.pending h) refl)

-- A stream in any chunks gives the frames, and leaves the parser, that one push of it all does.
pub feed-joined :
    (codec : JsonCodec) (parser : SseLineParser) (chunks : List Bytes)
    → IsDrained parser
    → feed codec parser chunks ≡ push codec parser (joined chunks)
unfolding feed
feed-joined codec parser [] h = sym (push-nil codec parser h)
feed-joined codec parser (chunk ∷ chunks) h =
    let now = push codec parser chunk in
    ap (λ (q : List SseFrame × SseLineParser). (now.0 ++ q.0, q.1))
      (feed-joined codec now.1 chunks (push-IsDrained codec parser chunk))
    ∙ sym (push-push codec parser chunk (joined chunks))

-- The bytes of a frame as they were read.
abbrev pub frame_line : SseFrame → Bytes
frame_line (event name line) = line
frame_line (data_value value leading_space line) = line
frame_line (data_unparseable line) = line
frame_line (done_frame line) = line
frame_line (pass_through line) = line

frame_line-parse_sse_line :
    (codec : JsonCodec) (line : Bytes) → frame_line (parse_sse_line codec line) ≡ line
unfolding parse_sse_line
frame_line-parse_sse_line codec line = ground arith

all_lines :
    (codec : JsonCodec) (ls : List Bytes)
    → joined (map frame_line (map (parse_sse_line codec) ls)) ≡ joined ls
all_lines codec [] = refl
all_lines codec (l ∷ ls) = rw (frame_line-parse_sse_line codec l, all_lines codec ls) refl

new_parser-IsDrained : IsDrained new_parser
unfolding take_line
new_parser-IsDrained = refl

unfoldable pub last_frame : Option SseFrame → List SseFrame
last_frame none = []
last_frame (some frame) = frame ∷ []

-- A whole stream: a push of each chunk, and `finish`.
unfoldable pub read_stream : JsonCodec → List Bytes → List SseFrame
unfolding feed finish last_frame
read_stream codec chunks =
    let fed = feed codec new_parser chunks in fed.0 ++ last_frame (finish codec fed.1).0

joined-append :
    (fs gs : List SseFrame)
    → joined (map frame_line (fs ++ gs)) ≡ joined (map frame_line fs) ++ joined (map frame_line gs)
joined-append [] gs = refl
joined-append (f ∷ fs) gs =
    ap (λ bs. frame_line f ++ bs) (joined-append fs gs)
    ∙ sym (append_assoc (frame_line f) (joined (map frame_line fs)) (joined (map frame_line gs)))

finish-keeps :
    (codec : JsonCodec) (parser : SseLineParser)
    → joined (map frame_line (last_frame (finish codec parser).0)) ≡ parser.pending
unfolding finish last_frame left_over
finish-keeps codec parser = go parser.pending
  where
    go : (bs : Bytes) → joined (map frame_line (last_frame (left_over codec bs))) ≡ bs
    go [] = refl
    go (b ∷ bs) = rw (frame_line-parse_sse_line codec (b ∷ bs)) (append-nil (b ∷ bs))

-- No byte of a stream is lost, repeated or moved: the lines of the frames that its chunks and the
-- end give are the bytes of the chunks, in order.
pub read_stream-keeps :
    (codec : JsonCodec) (chunks : List Bytes)
    → joined (map frame_line (read_stream codec chunks)) ≡ joined chunks
unfolding read_stream push
read_stream-keeps codec chunks =
    let fed = feed codec new_parser chunks in
    let drained = lines (joined chunks) in
    joined-append fed.0 (last_frame (finish codec fed.1).0)
    ∙ ap (λ bs. joined (map frame_line fed.0) ++ bs) (finish-keeps codec fed.1)
    ∙ ap (λ (q : List SseFrame × SseLineParser). joined (map frame_line q.0) ++ q.1.pending)
        (feed-joined codec new_parser chunks new_parser-IsDrained)
    ∙ ap (λ bs. bs ++ drained.1) (all_lines codec drained.0)
    ∙ drain-joins _ (joined chunks)

-- A stream gives the same frames however it is cut into chunks.
pub read_stream-cuts :
    (codec : JsonCodec) (chunks pieces : List Bytes)
    → joined chunks ≡ joined pieces
    → read_stream codec chunks ≡ read_stream codec pieces
unfolding read_stream
read_stream-cuts codec chunks pieces same =
    ap (λ (q : List SseFrame × SseLineParser). q.0 ++ last_frame (finish codec q.1).0)
      (feed-joined codec new_parser chunks new_parser-IsDrained
        ∙ ap (push codec new_parser) same
        ∙ sym (feed-joined codec new_parser pieces new_parser-IsDrained))
