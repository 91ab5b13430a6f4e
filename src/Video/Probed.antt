-- ===== src/Video/Probed.antt =====
-- What ffprobe has reported of a video that `Finalize` accepts.
use screenspace.Strconv.{has_prefix}
use screenspace.Base.{
  List, str_eq, arith, eq_iff, ◌∷◌, [], find, pos, ℕ, String, ◌≡◌, ◌⊎◌, refl, ap, subst, ◌∙◌, true,
  false, All, ◌++◌, Option, none, some, int32, Bool-cases, Option-cases, inl, inr, ◌≤ℤ◌,
}
use screenspace.Config.{Config}
use screenspace.Db.Models.{Wallpaper, WallpaperRow}
use screenspace.Db.Wallpapers.{to_row}
use screenspace.Server.Env.{Env, ProbeResult}
use screenspace.Server.World.{World}
use screenspace.Server.Exec.Inversion.{Returns}
use screenspace.Service.Wallpaper.{finalize}
use screenspace.Service.Wallpaper.Finalized.{IsAccepted, finalized_row, finalize_ok}
use screenspace.Video.{
  Tools, FfprobeOutput, FfprobeStream, ffprobe_args, is_h264, is_h265, lower_codec, normalize_codec,
  probe_info, video_stream, probe, with_ffprober, has_picture,
}

-- The names of H.264, and those of H.265, in lower case.
abbrev pub IsAvc : String → Type 0
IsAvc c = (c ≡ "avc") ⊎ ((c ≡ "avc1") ⊎ (has_prefix "h264" c ≡ true))

abbrev pub IsHevc : String → Type 0
IsHevc c = (c ≡ "hevc") ⊎ ((c ≡ "hev1") ⊎ (has_prefix "h265" c ≡ true))

is_h264-IsAvc : (c : String) → is_h264 c ≡ true → IsAvc c
is_h264-IsAvc c h = elim (Bool-cases (str_eq c "avc")) [
  | inl e ↦ inl ((eq_iff c "avc").0 e)
  | inr not_avc ↦ elim (Bool-cases (str_eq c "avc1")) [
    | inl e ↦ inr (inl ((eq_iff c "avc1").0 e))
    | inr not_avc1 ↦ elim (Bool-cases (str_eq c "h264")) [
      | inl e ↦ inr (inr (rw ((eq_iff c "h264").0 e) refl))
      | inr other ↦ inr (inr (rw (not_avc, not_avc1, other) at h))
    ]
  ]
]

is_h265-IsHevc : (c : String) → is_h265 c ≡ true → IsHevc c
is_h265-IsHevc c h = elim (Bool-cases (str_eq c "hevc")) [
  | inl e ↦ inl ((eq_iff c "hevc").0 e)
  | inr not_hevc ↦ elim (Bool-cases (str_eq c "hev1")) [
    | inl e ↦ inr (inl ((eq_iff c "hev1").0 e))
    | inr not_hev1 ↦ elim (Bool-cases (str_eq c "h265")) [
      | inl e ↦ inr (inr (rw ((eq_iff c "h265").0 e) refl))
      | inr other ↦ inr (inr (rw (not_hevc, not_hev1, other) at h))
    ]
  ]
]

-- Both dimensions are positive.
abbrev pub HasPicture : FfprobeStream → Type 0
HasPicture s = (pos 1 ≤ℤ s.width) × (pos 1 ≤ℤ s.height)

-- The stream is the first with a picture.
abbrev pub IsFirst : List FfprobeStream → FfprobeStream → Type 0
IsFirst streams s =
    (before : List FfprobeStream) × (after : List FfprobeStream) × (streams ≡ before ++ s ∷ after)
    × All (λ t. HasPicture t → ⊥) before
    × HasPicture s

has_picture-HasPicture : (s : FfprobeStream) → has_picture s ≡ true → HasPicture s
has_picture-HasPicture s h = (ground arith, ground arith)

no_picture : (s : FfprobeStream) → has_picture s ≡ false → HasPicture s → ⊥
no_picture s h p = ground (arith, p.0, p.1)

find-IsFirst :
    (xs : List FfprobeStream) (s : FfprobeStream) → find has_picture xs ≡ some s → IsFirst xs s
find-IsFirst [] s h = absurd (cc)
find-IsFirst (x ∷ xs) s h = elim (Bool-cases (has_picture x)) [
  | inl hit ↦
      let same : x ≡ s = (let h' = rw hit at h in cc) in
      ([], xs, ap (λ y. y ∷ xs) same, tt, has_picture-HasPicture s (rw same at hit))
  | inr miss ↦
      let (before, after, split, none_of, picture) = find-IsFirst xs s (rw miss at h) in
      (x ∷ before, after, ap (λ l. x ∷ l) split, (no_picture x miss, none_of), picture)
]

module _ (tools : Tools) where
  -- The name of the codec, in any case, and the format that is stored for it.
  abbrev pub IsCodec : String → String → Type 0
  IsCodec codec format =
      (IsAvc (tools.to_lower codec) × (format ≡ "h264"))
      ⊎ (IsHevc (tools.to_lower codec) × (format ≡ "h265"))

  lower_codec-known :
      (c : String)
      → (lower_codec tools c ≡ "h264") ⊎ (lower_codec tools c ≡ "h265")
      → (IsAvc c × (lower_codec tools c ≡ "h264")) ⊎ (IsHevc c × (lower_codec tools c ≡ "h265"))
  lower_codec-known c h = elim (Bool-cases (is_h264 c)) [
    | inl avc ↦ inl (is_h264-IsAvc c avc, rw avc refl)
    | inr not_avc ↦ elim (Bool-cases (is_h265 c)) [
      | inl hevc ↦ inr (is_h265-IsHevc c hevc, rw (not_avc, hevc) refl)
      | inr not_hevc ↦ elim h [
        | inl e ↦
            let e' : c ≡ "h264" = (rw (not_avc, not_hevc) at e) in
            inl (inr (inr (rw e' refl)), rw (not_avc, not_hevc) e')
        | inr e ↦
            let e' : c ≡ "h265" = (rw (not_avc, not_hevc) at e) in
            inr (inr (inr (rw e' refl)), rw (not_avc, not_hevc) e')
      ]
    ]
  ]

  -- What a run of ffprobe printed, and its first stream with a picture.
  pub record Reports (info : ProbeResult) (o : FfprobeOutput) (s : FfprobeStream) : Type 0 where
    pub printed :
        (n : ℕ) × (path : String) × (out : String) × (tools.run n "ffprobe" (ffprobe_args path)
          ≡ some out)
        × (tools.unmarshal out ≡ some o)
    pub stream : video_stream tools o ≡ some s
    pub read : info ≡ probe_info tools o (some s)

  info-Reports :
      (o : FfprobeOutput) (info : ProbeResult) (found : Option FfprobeStream)
      → video_stream tools o ≡ found
      → info ≡ probe_info tools o found
      → (info.format ≡ "h264") ⊎ (info.format ≡ "h265")
      → (s : FfprobeStream) × (video_stream tools o ≡ some s) × (info ≡ probe_info tools o (some s))
  unfolding probe_info
  info-Reports o info none stream read (inl codec) = absurd (cc)
  info-Reports o info none stream read (inr codec) = absurd (cc)
  info-Reports o info (some s) stream read codec = (s, stream, read)

  probe-Reports :
      (n : ℕ) (path : String) (info : ProbeResult)
      → probe tools n path ≡ some info
      → (info.format ≡ "h264") ⊎ (info.format ≡ "h265")
      → (o : FfprobeOutput) × (s : FfprobeStream) × Reports info o s
  unfolding probe
  probe-Reports n path info h codec =
      elim (Option-cases (tools.run n "ffprobe" (ffprobe_args path))) [
        | inl broken ↦ absurd (let h' = rw (broken, probe) at h in cc)
        | inr (out, ran) ↦ elim (Option-cases (tools.unmarshal out)) [
          | inl bad ↦ absurd (let h' = rw bad at (rw (ran, probe) at h) in cc)
          | inr (o, decoded) ↦
              let h' = rw decoded at (rw (ran, probe) at h) in
              let read : info ≡ probe_info tools o (video_stream tools o) = (cc) in
              let (s, stream, read') = info-Reports o info (video_stream tools o) refl read codec in
              (
                o,
                s,
                record { printed = (n, path, out, ran, decoded); stream = stream; read = read' },
              )
        ]
      ]

  -- What a row says of the video that a run of ffprobe reported.
  pub record IsRowOf (cfg : Config) (row : WallpaperRow) (o : FfprobeOutput) (s : FfprobeStream)
      : Type 0 where
    pub printed :
        (n : ℕ) × (path : String) × (out : String) × (tools.run n "ffprobe" (ffprobe_args path)
          ≡ some out)
        × (tools.unmarshal out ≡ some o)
    pub first : IsFirst o.streams s
    pub codec : IsCodec s.codec_name row.format
    pub tall_enough : cfg.min_height ≤ℤ s.height
    pub width : row.width ≡ int32 s.width
    pub height : row.height ≡ int32 s.height

  row-IsRowOf :
      (env : Env) (cfg : Config) (id now : ℕ) (v : Wallpaper) (row : WallpaperRow)
      (info : ProbeResult) (o : FfprobeOutput) (s : FfprobeStream)
      → row ≡ to_row (finalized_row env cfg id info now v)
      → IsAccepted cfg info
      → Reports info o s
      → IsRowOf cfg row o s
  unfolding probe_info normalize_codec
  row-IsRowOf env cfg id now v row info o s e accepted r =
      let format : info.format ≡ normalize_codec tools s.codec_name =
        ap (λ (x : ProbeResult). x.format) r.read in
      record {
        printed = r.printed;
        first = find-IsFirst o.streams s r.stream;
        codec =
            rw (ap (λ (x : WallpaperRow). x.format) e ∙ format)
              (lower_codec-known (tools.to_lower s.codec_name) (rw format at accepted.codec));
        tall_enough =
            subst (λ (x : ProbeResult). cfg.min_height ≤ℤ x.height) r.read accepted.height;
        width =
            ap (λ (x : WallpaperRow). x.width) e ∙ ap (λ (x : ProbeResult). int32 x.width) r.read;
        height =
            ap (λ (x : WallpaperRow). x.height) e ∙ ap (λ (x : ProbeResult). int32 x.height) r.read;
      }

  -- When the server probes with ffprobe and `Finalize` succeeds, a run of ffprobe printed an output
  -- with a stream whose dimensions are positive, as those of no stream before it are; that stream
  -- has at least the height that the configuration asks for, and a codec that is named as H.264 or
  -- as H.265. The row has "h264" or "h265" as its format accordingly, and the width and height of
  -- the stream, cut to 32 bits.
  pub finalize-IsRowOf :
      (env : Env) (cfg : Config) (id user_id : ℕ) (w w' : World) (row : WallpaperRow)
      → Returns (finalize (with_ffprober tools env) cfg id user_id) w row w'
      → (o : FfprobeOutput) × (s : FfprobeStream) × IsRowOf cfg row o s
  finalize-IsRowOf env cfg id user_id w w' row h =
      let (v, info, now, k) = finalize_ok (with_ffprober tools env) cfg id user_id w w' row h in
      let (n, path, probed) = k.probed in
      let (o, s, r) = probe-Reports n path info probed k.accepted.codec in
      (
        o,
        s,
        row-IsRowOf (with_ffprober tools env) cfg id now v row info o s k.returned k.accepted r,
      )
