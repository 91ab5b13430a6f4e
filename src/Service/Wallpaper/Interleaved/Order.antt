-- ===== src/Service/Wallpaper/Interleaved/Order.antt =====
-- What the steps of the review keep when requests run at the same time.
use screenspace.Base.{
  ℕ, String, ◌≡◌, ◌≢◌, ◌⊎◌, refl, sym, ap, subst, ◌∙◌, true, some, List, [], ◌∷◌, ◌++◌, str_eq,
  eq_iff, inl, inr, All,
}
use screenspace.Types.{status_pending, status_pending_review, status_approved, status_rejected}
use screenspace.Config.{Config}
use screenspace.Db.Models.{Wallpaper, WallpaperRow, Database, done}
use screenspace.Db.Wallpapers.{
  find_wallpaper, update_wallpaper, get_wallpaper_by_id, update_wallpaper_status,
  update_wallpaper_status_with_reason, update_wallpaper_after_finalize,
}
use screenspace.Db.Wallpapers.Statuses.{Rows, Rows-refl, update-Rows}
use screenspace.Server.Env.{Env}
use screenspace.Service.Wallpaper.Lifecycle.{row_of_done}
use screenspace.Service.Wallpaper.Interleaved.{
  Underway, approving, rejecting, publishing, Shared, commit, FinalizeStep, finalize_tested,
  finalize_prepared, finalize_failed, Step, approve_tested, reject_tested, finalizes, committed,
  given_up, other_write, Reach, here, next,
}
use screenspace.Service.Wallpaper.Interleaved.Others.{OtherWrite-SameStatus}

-- The statuses of a wallpaper that has been finalized.
abbrev pub IsSubmitted : String → Type 0
IsSubmitted s = (s ≡ status_pending_review) ⊎ (s ≡ status_approved) ⊎ (s ≡ status_rejected)

-- The statuses of a wallpaper.
abbrev IsKnown : String → Type 0
IsKnown s = (s ≡ status_pending) ⊎ IsSubmitted s

-- One step: none, the submission of a pending wallpaper, or one among the statuses after it.
pub data Passes (s t : String) : Type 0 where
  stays : s ≡ t → Passes s t
  submits : s ≡ status_pending → t ≡ status_pending_review → Passes s t
  decides : IsSubmitted s → IsSubmitted t → Passes s t

-- Every wallpaper is still there, with its uploader, and passed such a step.
abbrev pub Interleaves : Database → Database → Type 0
Interleaves = Rows Passes

not_pending : (s : String) → IsSubmitted s → s ≢ status_pending
not_pending s (inl e) p = absurd (cc)
not_pending s (inr (inl e)) p = absurd (cc)
not_pending s (inr (inr e)) p = absurd (cc)

Passes-IsSubmitted : (s t : String) → Passes s t → IsSubmitted s → IsSubmitted t
Passes-IsSubmitted s t (stays e) h = subst IsSubmitted e h
Passes-IsSubmitted s t (submits e f) h = inl f
Passes-IsSubmitted s t (decides e f) h = f

Passes-IsKnown : (s t : String) → Passes s t → IsKnown s → IsKnown t
Passes-IsKnown s t (stays e) h = subst IsKnown e h
Passes-IsKnown s t (submits e f) h = inr (inl f)
Passes-IsKnown s t (decides e f) h = inr f

-- The wallpaper is there, with a status that a test has left it with.
abbrev Has : (String → Type 0) → Database → ℕ → Type 0
Has P d id = (v : Wallpaper) × (find_wallpaper id d ≡ some v) × P v.status

-- The wallpaper of a decision that is under way has been finalized; one that is to be published is
-- pending, or has been finalized by another request.
abbrev IsTested : Database → Underway → Type 0
IsTested d (approving id) = Has IsSubmitted d id
IsTested d (rejecting id reason) = Has IsSubmitted d id
IsTested d (publishing id info a b) = Has IsKnown d id

Interleaves-refl : (d : Database) → Interleaves d d
Interleaves-refl = Rows-refl Passes (λ s. stays refl)

Has-Interleaves :
    (P : String → Type 0) (passed : (s t : String) → Passes s t → P s → P t) (d d' : Database)
    (id : ℕ)
    → Interleaves d d'
    → Has P d id
    → Has P d' id
Has-Interleaves P passed d d' id k (v, found, h) =
    let (v', found', owner, p) = k id v found in (v', found', passed v.status v'.status p h)

IsTested-Interleaves :
    (d d' : Database) (u : Underway) → Interleaves d d' → IsTested d u → IsTested d' u
IsTested-Interleaves d d' (approving id) k h =
    Has-Interleaves IsSubmitted Passes-IsSubmitted d d' id k h
IsTested-Interleaves d d' (rejecting id reason) k h =
    Has-Interleaves IsSubmitted Passes-IsSubmitted d d' id k h
IsTested-Interleaves d d' (publishing id info a b) k h =
    Has-Interleaves IsKnown Passes-IsKnown d d' id k h

module _ {A : Type 0} (P Q : A → Type 0) (imply : (x : A) → P x → Q x) where
  All-implied : (xs : List A) → All P xs → All Q xs
  All-implied [] h = tt
  All-implied (x ∷ xs) h = (imply x h.0, All-implied xs h.1)

-- What the tests have found holds for all requests on their way.
pub record AreTested (s : Shared) : Type 0 where
  pub prepared : All (Has IsKnown s.db) s.preparing
  pub decided : All (IsTested s.db) s.underway

AreTested-Interleaves :
    (d d' : Database) (ids : List ℕ) (us : List Underway)
    → Interleaves d d'
    → AreTested (record { db = d; preparing = ids; underway = us })
    → AreTested (record { db = d'; preparing = ids; underway = us })
AreTested-Interleaves d d' ids us k h = record {
  prepared =
      All-implied (Has IsKnown d) (Has IsKnown d')
        (λ id. Has-Interleaves IsKnown Passes-IsKnown d d' id k) ids h.prepared;
  decided =
      All-implied (IsTested d) (IsTested d') (λ u. IsTested-Interleaves d d' u k) us h.decided;
}

-- An UPDATE of one row to a status of a wallpaper that has been finalized.
decide-Interleaves :
    (d : Database) (id : ℕ) (f : Wallpaper → Wallpaper) (v : Wallpaper)
    → ((w : Wallpaper) → (f w).id ≡ w.id)
    → ((w : Wallpaper) → (f w).uploader_id ≡ w.uploader_id)
    → ((w : Wallpaper) → IsSubmitted (f w).status)
    → find_wallpaper id d ≡ some v
    → IsSubmitted v.status
    → Interleaves d (update_wallpaper id f d)
decide-Interleaves d id f v same_id same_owner submitted found tested =
    update-Rows Passes (λ s. stays refl) d id f same_id same_owner
      λ w h. let same : w ≡ v = (cc) in decides (rw same tested) (submitted w)

publishes : (s t : String) → IsKnown s → t ≡ status_pending_review → Passes s t
publishes s t (inl pending) review = submits pending review
publishes s t (inr later) review = decides later (inl review)

publish-Interleaves :
    (d : Database) (id : ℕ) (f : Wallpaper → Wallpaper) (v : Wallpaper)
    → ((w : Wallpaper) → (f w).id ≡ w.id)
    → ((w : Wallpaper) → (f w).uploader_id ≡ w.uploader_id)
    → ((w : Wallpaper) → (f w).status ≡ status_pending_review)
    → find_wallpaper id d ≡ some v
    → IsKnown v.status
    → Interleaves d (update_wallpaper id f d)
publish-Interleaves d id f v same_id same_owner review found known =
    update-Rows Passes (λ s. stays refl) d id f same_id same_owner
      λ w h. let same : w ≡ v = (cc) in publishes w.status (f w).status (rw same known) (review w)

All-removed :
    {A : Type 0} (P : A → Type 0) (before : List A) (x : A) (rest : List A)
    → All P (before ++ x ∷ rest)
    → P x × All P (before ++ rest)
All-removed P [] x rest h = h
All-removed P (y ∷ before) x rest h =
    let (hx, hr) = All-removed P before x rest h.1 in (hx, (h.0, hr))

module _ (env : Env) (cfg : Config) where
  commit-Interleaves :
      (now : ℕ) (u : Underway) (d : Database)
      → IsTested d u
      → Interleaves d (commit env cfg now u d)
  unfolding commit update_wallpaper_status update_wallpaper_status_with_reason
      update_wallpaper_after_finalize
  commit-Interleaves now (approving id) d (v, found, tested) =
      decide-Interleaves d id _ v (λ w. refl) (λ w. refl) (λ w. inr (inl refl)) found tested
  commit-Interleaves now (rejecting id reason) d (v, found, tested) =
      decide-Interleaves d id _ v (λ w. refl) (λ w. refl) (λ w. inr (inr refl)) found tested
  commit-Interleaves now (publishing id info a b) d (v, found, known) =
      rw (found, commit, update_wallpaper_after_finalize)
        (publish-Interleaves d id _ v (λ w. refl) (λ w. refl) (λ w. refl) found known)

  -- A row that was read, and whose status passed a test.
  tested :
      (status : String) (P : String → Type 0) (id : ℕ) (d : Database) (row : WallpaperRow)
      → get_wallpaper_by_id id d ≡ done row
      → str_eq row.status status ≡ true
      → P status
      → Has P d id
  tested status P id d row read passed p =
      let (v, found, e) = row_of_done id d row read in
      let same : v.status ≡ status =
        ap (λ (x : WallpaperRow). x.status) (sym e) ∙ (eq_iff row.status status).0 passed in
      (v, found, subst P (sym same) p)

  FinalizeStep-AreTested :
      {s t : Shared} → FinalizeStep env cfg s t → AreTested s → (s.db ≡ t.db) × AreTested t
  FinalizeStep-AreTested {s} (finalize_tested id user row read mine pending) h = (
    refl,
    record {
      prepared = (tested status_pending IsKnown id s.db row read pending (inl refl), h.prepared);
      decided = h.decided;
    },
  )
  FinalizeStep-AreTested {s} (finalize_prepared before id rest info a b e made) h =
      let (this, others) = All-removed (Has IsKnown s.db) before id rest (rw e at h.prepared) in
      (refl, record { prepared = others; decided = (this, h.decided) })
  FinalizeStep-AreTested {s} (finalize_failed before id rest e) h =
      let (this, others) = All-removed (Has IsKnown s.db) before id rest (rw e at h.prepared) in
      (refl, record { prepared = others; decided = h.decided })

  Step-AreTested :
      {s t : Shared} → Step env cfg s t → AreTested s → Interleaves s.db t.db × AreTested t
  Step-AreTested {s} (approve_tested id row read review) h = (
    Interleaves-refl s.db,
    record {
      prepared = h.prepared;
      decided =
          (tested status_pending_review IsSubmitted id s.db row read review (inl refl), h.decided);
    },
  )
  Step-AreTested {s} (reject_tested id reason row read review) h = (
    Interleaves-refl s.db,
    record {
      prepared = h.prepared;
      decided =
          (tested status_pending_review IsSubmitted id s.db row read review (inl refl), h.decided);
    },
  )
  Step-AreTested {s} (finalizes t st) h =
      let (same, h') = FinalizeStep-AreTested st h in
      (subst (Interleaves s.db) same (Interleaves-refl s.db), h')
  Step-AreTested {s} (committed now before u rest e) h =
      let (hu, hr) = All-removed (IsTested s.db) before u rest (rw e at h.decided) in
      let k = commit-Interleaves now u s.db hu in
      (
        k,
        AreTested-Interleaves s.db (commit env cfg now u s.db) s.preparing (before ++ rest) k
            (record { prepared = h.prepared; decided = hr }),
      )
  Step-AreTested {s} (given_up before u rest e) h = (
    Interleaves-refl s.db,
    record {
      prepared = h.prepared;
      decided = (All-removed (IsTested s.db) before u rest (rw e at h.decided)).1;
    },
  )
  Step-AreTested {s} (other_write db st) h =
      let same = OtherWrite-SameStatus s.db db st in
      let k : Interleaves s.db db = λ id v found.
        let (v', found', owner, e) = same id v found in (v', found', owner, stays (sym e)) in
      (k, AreTested-Interleaves s.db db s.preparing s.underway k h)

  Reach-AreTested :
      {s t : Shared} → Reach env cfg s t → s.preparing ≡ [] → s.underway ≡ [] → AreTested t
  Reach-AreTested here e e' = record { prepared = rw e tt; decided = rw e' tt }
  Reach-AreTested (next r st) e e' = (Step-AreTested st (Reach-AreTested r e e')).1

  -- However `Finalize`, `Approve`, `Reject` and the queries of the other requests overlap, if no
  -- request is on its way at the start, each step leaves every wallpaper there, with its uploader,
  -- and leaves its status, or changes it from pending to pending_review, or among pending_review,
  -- approved and rejected: no wallpaper is approved or rejected that was not finalized, and none
  -- becomes pending again.
  pub Step-Interleaves :
      {s t u : Shared}
      → Reach env cfg s t
      → s.preparing ≡ []
      → s.underway ≡ []
      → Step env cfg t u
      → Interleaves t.db u.db
  Step-Interleaves r e e' st = (Step-AreTested st (Reach-AreTested r e e')).0
