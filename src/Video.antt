-- ===== src/Video.antt =====
-- server/internal/video/ffprober.go: the prober that runs ffprobe and ffmpeg.
pub mod Probed
use screenspace.Base.{
  ℕ, String, ◌≡◌, Bool, true, false, ◌&&◌, ◌||◌, Option, none, some, List, [], ◌∷◌, ℤ, pos, ltb_ℤ,
  str_eq, if◌then◌else◌, find,
}
use screenspace.Strconv.{parse_int, has_prefix}
use screenspace.Server.Env.{Env, ProbeResult}

-- `ffprobeStream`
pub record FfprobeStream : Type 0 where
  pub width : ℤ
  pub height : ℤ
  pub codec_name : String

-- `ffprobeFormat`
pub record FfprobeFormat : Type 0 where
  pub duration : String
  pub size : String

-- `ffprobeOutput`
pub record FfprobeOutput : Type 0 where
  pub streams : List FfprobeStream
  pub format : FfprobeFormat

-- What is not in the repository: a run of a command with its arguments and what it prints if it
-- succeeds, by the number of the calls before it; json.Unmarshal into `ffprobeOutput`;
-- strconv.ParseFloat(s, 64), as a bit pattern; strings.ToLower.
pub record Tools : Type 0 where
  pub run : ℕ → String → List String → Option String
  pub unmarshal : String → Option FfprobeOutput
  pub parse_float : String → Option ℕ
  pub to_lower : String → String

abbrev pub is_some : {A : Type 0} → Option A → Bool
is_some none = false
is_some (some a) = true

-- A stream with a picture.
abbrev pub has_picture : FfprobeStream → Bool
has_picture s = ltb_ℤ (pos 0) s.width && ltb_ℤ (pos 0) s.height

abbrev pub is_h264 : String → Bool
is_h264 c = str_eq c "h264" || str_eq c "avc" || str_eq c "avc1" || has_prefix "h264" c

abbrev pub is_h265 : String → Bool
is_h265 c = str_eq c "h265" || str_eq c "hevc" || str_eq c "hev1" || has_prefix "h265" c

abbrev pub ffprobe_args : String → List String
ffprobe_args path =
    "-v" ∷ "quiet" ∷ "-print_format" ∷ "json" ∷ "-show_streams" ∷ "-show_format" ∷ path ∷ []

abbrev thumbnail_args : String → String → List String
thumbnail_args input output =
    "-y" ∷ "-i" ∷ input ∷ "-ss" ∷ "2" ∷ "-vframes" ∷ "1" ∷ "-q:v" ∷ "2" ∷ output ∷ []

abbrev preview_args : String → String → List String
preview_args input output =
    "-y" ∷ "-i" ∷ input ∷ "-t" ∷ "10" ∷ "-vf" ∷ "scale=-2:640" ∷ "-an" ∷ "-c:v" ∷ "libx264"
    ∷ "-preset" ∷ "fast" ∷ "-crf" ∷ "28" ∷ output ∷ []

-- A text that is empty or cannot be parsed leaves the zero value.
abbrev parsed_or : {A : Type 0} → A → (String → Option A) → String → A
parsed_or zero_value parse s =
    if str_eq s "" then zero_value else elim (parse s) [ none ↦ zero_value | some a ↦ a ]

module _ (tools : Tools) where
  abbrev pub lower_codec : String → String
  lower_codec c = if is_h264 c then "h264" else if is_h265 c then "h265" else c

  -- `normalizeCodec`
  unfoldable pub normalize_codec : String → String
  normalize_codec codec = lower_codec (tools.to_lower codec)

  -- What the loop over the streams and the two numbers of the container make of the output.
  unfoldable pub probe_info : FfprobeOutput → Option FfprobeStream → ProbeResult
  probe_info o none = record {
    width = pos 0;
    height = pos 0;
    duration = parsed_or 0 tools.parse_float o.format.duration;
    size = parsed_or (pos 0) parse_int o.format.size;
    format = "";
  }
  probe_info o (some s) = record {
    width = s.width;
    height = s.height;
    duration = parsed_or 0 tools.parse_float o.format.duration;
    size = parsed_or (pos 0) parse_int o.format.size;
    format = normalize_codec s.codec_name;
  }

  -- The first stream with a picture.
  abbrev pub video_stream : FfprobeOutput → Option FfprobeStream
  video_stream o = find has_picture o.streams

  -- `Probe`
  unfoldable pub probe : ℕ → String → Option ProbeResult
  probe n path = elim (tools.run n "ffprobe" (ffprobe_args path)) [
    | none ↦ none
    | some out ↦ elim (tools.unmarshal out) [
      | none ↦ none
      | some o ↦ some (probe_info o (video_stream o))
    ]
  ]

  -- `GenerateThumbnail`
  unfoldable pub generate_thumbnail : ℕ → String → String → Bool
  generate_thumbnail n input output = is_some (tools.run n "ffmpeg" (thumbnail_args input output))

  -- `GeneratePreview`
  unfoldable pub generate_preview : ℕ → String → String → Bool
  generate_preview n input output = is_some (tools.run n "ffmpeg" (preview_args input output))

  -- `NewFFProber`, as the prober of the server.
  abbrev pub with_ffprober : Env → Env
  with_ffprober env = record env {
    probe = probe;
    generate_thumbnail = generate_thumbnail;
    generate_preview = generate_preview;
  }
