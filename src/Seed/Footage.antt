-- ===== src/Seed/Footage.antt =====
-- server/cmd/seed/seed.go: `downloadFile`, `generateVideo` and `categoryColor`.
use Prim.Native.Char.{code}
use Prim.Native.String.{◌++◌ as append}
use screenspace.Base.{
  ℕ, String, Bool, Option, List, [], ◌∷◌, ◌++◌, ◌==◌, str_eq, if◌then◌else◌, not,
}
use screenspace.Apperr.{internal}
use screenspace.Server.Exec.{Exec, Result, ok, err, pure, throw_if, or_throw, ◌>>=◌, ◌>>◌, call}
use screenspace.Seed.Videos.{SeedVideo}

-- What is not in the repository: os.MkdirTemp; a GET of net/http with the status of its answer, if
-- there is one; os.Create; io.Copy of the body; a run of ffmpeg with its arguments; strings.ToUpper.
pub record Tools : Type 0 where
  pub make_dir : ℕ → Option String
  pub get : ℕ → String → Option ℕ
  pub create_file : ℕ → String → Bool
  pub copy_body : ℕ → Bool
  pub ffmpeg : ℕ → List String → Bool
  pub to_upper : String → String

-- `categoryColor`
unfoldable pub category_color : String → String
category_color category =
    if str_eq category "nature"
    then "0x2D5016"
    else if str_eq category "abstract"
    then "0x6B1D7B"
    else if str_eq category "space"
    then "0x0D0D2B"
    else if str_eq category "urban"
    then "0x2C3E50"
    else if str_eq category "underwater"
    then "0x004D6B"
    else "0x333333"

-- strings.ReplaceAll(s, "'", "")
unfoldable pub without_quotes : String → String
without_quotes String.[] = String.[]
without_quotes (String.◌∷◌ c s) =
    let rest = without_quotes s in if code c == 39 then rest else String.◌∷◌ c rest

abbrev source_args : String → List String
source_args color =
    "-y" ∷ "-f" ∷ "lavfi" ∷ "-i" ∷ append "color=c=" (append color ":s=1920x1080:d=10:r=24") ∷ []

abbrev codec_args : String → List String
codec_args output =
    "-c:v" ∷ "libx264" ∷ "-preset" ∷ "ultrafast" ∷ "-pix_fmt" ∷ "yuv420p" ∷ output ∷ []

abbrev title_filter : String → String
title_filter title = append "drawtext=text='" (
    append title
      "':fontsize=48:fontcolor=white:x=(w-text_w)/2:y=(h-text_h)/2-40:shadowcolor=black:shadowx=2:shadowy=2,")

abbrev category_filter : String → String
category_filter category = append "drawtext=text='" (
    append category
      "':fontsize=28:fontcolor=white@0.7:x=(w-text_w)/2:y=(h-text_h)/2+30:shadowcolor=black:shadowx=1:shadowy=1")

module _ (tools : Tools) where
  -- `downloadFile`
  unfoldable pub download_file : String → String → Exec (Unit {0})
  download_file url output_path = do
    answered ← call (λ n. tools.get n url)
    status ← or_throw answered (internal "download")
    throw_if (not (status == 200)) (internal "download returned")
    created ← call (λ n. tools.create_file n output_path)
    throw_if (not created) (internal "create file")
    copied ← call tools.copy_body
    throw_if (not copied) (internal "copy")

  abbrev pub text_args : SeedVideo → List String
  text_args v =
      "-vf"
      ∷ append (title_filter (without_quotes v.title)) (category_filter (tools.to_upper v.category))
      ∷ []

  -- `generateVideo`: without the text, if ffmpeg fails with it.
  unfoldable pub generate_video : SeedVideo → String → Exec (Unit {0})
  generate_video v output_path = do
    let color = category_color v.category
    with_text ←
        call (λ n. tools.ffmpeg n (source_args color ++ (text_args v ++ codec_args output_path)))
    if with_text then pure tt else (do
      plain ← call (λ n. tools.ffmpeg n (source_args color ++ codec_args output_path))
      throw_if (not plain) (internal "ffmpeg generate"))

  -- What `seedWallpaper` does for the video: `after` is the result of the download.
  abbrev pub or_generated : SeedVideo → String → Result (Unit {0}) → Exec (Unit {0})
  or_generated v path (ok u) = pure u
  or_generated v path (err e) = generate_video v path
  or_generated v path Result.panicked = λ w. (Result.panicked, w)

  unfoldable pub fetch : SeedVideo → String → Exec (Unit {0})
  fetch v path w = let (r, w') = download_file v.url path w in or_generated v path r w'
