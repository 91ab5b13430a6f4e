-- ===== src/Service/Wallpaper/Files.antt =====
-- The temporary files of `Finalize`, and which of them may stay.
use Prim.Native.String.{◌++◌ as append}
use screenspace.Base.{
  ℕ, suc, String, ◌≡◌, Bool, true, false, Option, none, some, ◌∷◌, arith, eq_iff, inl, inr,
  Option-cases, Bool-cases, ◌⊎◌, refl, subst, any, str_eq,
}
use screenspace.Apperr.{Error}
use screenspace.Config.{Config}
use screenspace.Server.Env.{Env, ProbeResult}
use screenspace.Server.World.{World}
use screenspace.Server.Exec.{Result, ok, panicked, err, pure, ◌>>=◌, call, ◌>>◌}
use screenspace.Service.Wallpaper.{
  finalize, publish, throw_some, download_and_probe, probe_file, generate_and_upload_assets, render,
  upload,
}
use screenspace.Service.Wallpaper.Clean.{
  has_file, any-remove, IsClean, Leaves, LeavesIn, Was, IsClean-pure, IsClean-throw,
  IsClean-reply_or, IsClean-read, IsClean-write, IsClean-throw_if, IsClean-bind, IsClean-deferred,
}

-- What ffmpeg has left at the path of its output, in a run that failed.
abbrev pub IsPartial : Env → String → Type 0
IsPartial env path =
    (n : ℕ) × (input : String) × (((path ≡ append input "_thumb.jpg")
        × (env.generate_thumbnail n input path ≡ false))
      ⊎ ((path ≡ append input "_preview.mp4") × (env.generate_preview n input path ≡ false)))
    × (env.leaves_partial (suc n) path ≡ true)

module _ (env : Env) (w : World) (x path : String) where
  made_or_before :
      any (λ f. str_eq f x) (path ∷ w.files) ≡ true → Was (IsPartial env) x w ⊎ (path ≡ x)
  made_or_before h = elim (Bool-cases (str_eq path x)) [
    | inl same ↦ inr ((eq_iff path x).0 same)
    | inr other ↦ inl (inl (ground (arith, h)))
  ]

  left_or_before :
      IsPartial env path → any (λ f. str_eq f x) (path ∷ w.files) ≡ true → Was (IsPartial env) x w
  left_or_before partial h = elim (Bool-cases (str_eq path x)) [
    | inl same ↦ inr (subst (IsPartial env) ((eq_iff path x).0 same) partial)
    | inr other ↦ inl (ground (arith, h))
  ]

module _ (env : Env) where
  upload-IsClean : (key t a b : String) → IsClean (IsPartial env) (upload env key t a b)
  unfolding upload call ◌>>=◌
  upload-IsClean key t a b = record { at = λ w path h. inl (ground arith) }

  render-Leaves :
      (run : ℕ → String → Bool) (path label : String)
      → ((n : ℕ) → run n path ≡ false → env.leaves_partial (suc n) path ≡ true → IsPartial env path)
      → Leaves (IsPartial env) (λ u. path) (render env run path label)
  unfolding render call ◌>>=◌
  render-Leaves run path label partial = record {
    left = λ w x h. elim (Bool-cases (run w.calls path)) [
      | inl made ↦ rw (made, render) (made_or_before env w x path (rw (made, render) at h))
      | inr broken ↦ elim (Bool-cases (env.leaves_partial (suc w.calls) path)) [
        | inl leaves ↦
            rw (broken, leaves, render)
              (left_or_before env w x path (partial w.calls broken leaves)
                (rw (broken, leaves, render) at h))
        | inr nothing ↦ rw (broken, nothing, render) (inl (rw (broken, nothing, render) at h))
      ]
    ];
  }

  uploads-IsClean :
      (a b : String)
      → IsClean {A = String × String} (IsPartial env) (do
        upload env a "image/jpeg" "open thumbnail" "upload thumbnail"
        upload env b "video/mp4" "open preview" "upload preview"
        pure (a, b))
  uploads-IsClean a b =
      IsClean-bind _ _ _ (upload-IsClean a _ _ _)
        λ _. IsClean-bind _ _ _ (upload-IsClean b _ _ _) λ _. IsClean-pure _ (a, b)

  generate_and_upload_assets-IsClean :
      (id : ℕ) (path : String) → IsClean (IsPartial env) (generate_and_upload_assets env id path)
  unfolding generate_and_upload_assets
  generate_and_upload_assets-IsClean id path =
      IsClean-deferred _ _ _ _
        (render-Leaves (λ n. env.generate_thumbnail n path) _ _
          λ n broken left. (n, path, inl (refl, broken), left))
        λ _.
          IsClean-deferred _ _ _ _
            (render-Leaves (λ n. env.generate_preview n path) _ _
              λ n broken left. (n, path, inr (refl, broken), left))
            λ _. uploads-IsClean _ _

module _ (env : Env) (cfg : Config) where
  -- Its file is there when it succeeds; otherwise it has been removed.
  abbrev OwnFile : Result (String × ProbeResult) → World → String → Type 0
  OwnFile (ok p) w path = (has_file path w ≡ true) ⊎ (p.0 ≡ path)
  OwnFile (err e) w path = has_file path w ≡ true
  OwnFile panicked w path = has_file path w ≡ true

  download_and_probe-OwnFile :
      (id : ℕ) (w : World) (path : String)
      → has_file path (download_and_probe env cfg id w).1 ≡ true
      → OwnFile (download_and_probe env cfg id w).0 w path
  unfolding download_and_probe probe_file call ◌>>=◌
  download_and_probe-OwnFile id w path h = elim (Option-cases (env.create_temp (suc w.calls))) [
    | inl missing ↦ ground arith
    | inr (t, created) ↦ ground (arith, any-remove path t (t ∷ w.files), eq_iff t path)
  ]

  OwnFile-LeavesIn :
      (r : Result (String × ProbeResult)) (w : World) (path : String)
      → OwnFile r w path
      → LeavesIn (IsPartial env) (λ p. p.0) r w path
  OwnFile-LeavesIn (ok p) w path (inl h) = inl (inl h)
  OwnFile-LeavesIn (ok p) w path (inr h) = inr h
  OwnFile-LeavesIn (err e) w path h = inl h
  OwnFile-LeavesIn panicked w path h = inl h

  download_and_probe-Leaves :
      (id : ℕ) → Leaves (IsPartial env) (λ p. p.0) (download_and_probe env cfg id)
  download_and_probe-Leaves id = record {
    left = λ w path h. OwnFile-LeavesIn _ w path (download_and_probe-OwnFile id w path h);
  }

  throw_some-IsClean : (o : Option Error) → IsClean (IsPartial env) (throw_some env cfg o)
  throw_some-IsClean none = IsClean-pure _ tt
  throw_some-IsClean (some e) = IsClean-throw _ e

  publish-IsClean :
      (id : ℕ) (path : String) (info : ProbeResult)
      → IsClean (IsPartial env) (publish env cfg id path info)
  unfolding publish
  publish-IsClean id path info = IsClean-bind _ _ _ (throw_some-IsClean _) λ _.
      IsClean-bind _ _ _ (generate_and_upload_assets-IsClean env id path)
        λ keys. IsClean-bind _ _ _ (IsClean-write _ env _) λ r. IsClean-reply_or _ r _

  finalize-IsClean : (id user_id : ℕ) → IsClean (IsPartial env) (finalize env cfg id user_id)
  unfolding finalize
  finalize-IsClean id user_id = IsClean-bind _ _ _ (IsClean-read _ env _) λ r.
      IsClean-bind _ _ _ (IsClean-reply_or _ r _) λ wp.
        IsClean-bind _ _ _ (IsClean-throw_if _ _ _) λ _.
          IsClean-bind _ _ _ (IsClean-throw_if _ _ _) λ _.
            IsClean-deferred _ _ _ _ (download_and_probe-Leaves wp.id)
              λ video. publish-IsClean wp.id video.0 video.1

  -- Whether `Finalize` succeeds or fails at any of its steps, every temporary file that is there
  -- afterwards was there before, or is what a run of ffmpeg that failed has left of a thumbnail or of
  -- a preview.
  pub finalize-has_file :
      (id user_id : ℕ) (w : World) (path : String)
      → has_file path (finalize env cfg id user_id w).1 ≡ true
      → (has_file path w ≡ true) ⊎ IsPartial env path
  finalize-has_file id user_id w path h = (finalize-IsClean id user_id).at w path h
