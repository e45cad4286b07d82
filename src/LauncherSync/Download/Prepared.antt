-- ===== src/LauncherSync/Download/Prepared.antt =====
-- What a download leaves in the folder of prepared files (launcher_sync/remote.py).
use minecraft_server_manager.Prelude.{
  ℕ, min, ◌≡◌, refl, sym, ap, subst, ◌∙◌, inl, inr, Bool-cases, Option-cases, true, not, none, some,
  List, [], ◌∷◌, length, ltb, arith, Text, text_key, text_eq, text_eq_iff, lookup, insert,
  lookup-insert, beq_refl, All,
}
use minecraft_server_manager.Prelude.Fallible.{
  Fallible, done, Ensures, holds, Ensures-guard, Ensures-step, Ensures-if, Ensures-done,
  Fallible-cases,
}
use minecraft_server_manager.LauncherSync.Manifest.{max_file_bytes}
use minecraft_server_manager.LauncherSync.Plan.{Install}
use minecraft_server_manager.LauncherSync.Disk.{Bytes, Files}
use minecraft_server_manager.LauncherSync.Download.{
  DownloadError, larger_than_announced, wrong_checksum, is_prepared, download, download_all,
}

module _ (sha256_of : Bytes → Text) (answer : Text → Fallible DownloadError Bytes) where
  -- A prepared file has the fingerprint that it is named by.
  abbrev pub IsPrepared : Files → Text → Type 0
  IsPrepared staging sha256 =
      (content : Bytes) × (lookup sha256 staging ≡ some content) × (sha256_of content ≡ sha256)

  IsPrepared-some :
      (staging : Files) (sha256 : Text)
      → is_prepared sha256_of answer sha256 (lookup sha256 staging) ≡ true
      → IsPrepared staging sha256
  IsPrepared-some staging sha256 h = elim (Option-cases (lookup sha256 staging)) [
    | inl none_there ↦ let bad = rw none_there at h in cc
    | inr (content, there) ↦
        let same = rw there at h in
        (content, there, (text_eq_iff (sha256_of content) sha256).0 same)
  ]

  insert-IsPrepared :
      (staging : Files) (sha256 other : Text) (content : Bytes)
      → sha256_of content ≡ sha256
      → IsPrepared staging other
      → IsPrepared (insert sha256 content staging) other
  insert-IsPrepared staging sha256 other content checked (held, there, same) =
      elim (Bool-cases (text_eq other sha256)) [
        | inl equal ↦
            let e = (text_eq_iff other sha256).0 equal in
            (content, lookup-insert sha256 other content staging ∙ rw equal refl, checked ∙ sym e)
        | inr differ ↦ (held, lookup-insert sha256 other content staging ∙ rw differ there, same)
      ]

  -- What a download leaves: the file is prepared, and so is what was.
  pub record Kept (sha256 : Text) (staging next : Files) : Type 0 where
    pub ready : IsPrepared next sha256
    pub still : (other : Text) → IsPrepared staging other → IsPrepared next other

  download-Ensures :
      (path sha256 : Text) (size : ℕ) (staging : Files)
      → Ensures (Kept sha256 staging) (download sha256_of answer path sha256 size staging)
  unfolding download
  download-Ensures path sha256 size staging =
      Ensures-if (is_prepared sha256_of answer sha256 (lookup sha256 staging))
        (λ there.
          holds (record { ready = IsPrepared-some staging sha256 there; still = λ other h. h }))
        λ missing. Ensures-step (answer path) λ content _.
          Ensures-guard (ltb (min size max_file_bytes) (length content)) larger_than_announced
            λ fits. Ensures-guard (not (text_eq (sha256_of content) sha256)) wrong_checksum λ same.
              let checked : sha256_of content ≡ sha256 =
                (text_eq_iff (sha256_of content) sha256).0 (ground arith) in
              holds (record {
                ready = (
                  content,
                  lookup-insert sha256 sha256 content staging ∙ rw (beq_refl sha256) refl,
                  checked,
                );
                still = λ other. insert-IsPrepared staging sha256 other content checked;
              })

  download_all-still :
      (is : List Install) (staging : Files) (sha256 : Text)
      → IsPrepared staging sha256
      → IsPrepared (download_all sha256_of answer is staging).1 sha256
  unfolding download_all
  download_all-still [] staging sha256 h = h
  download_all-still (i ∷ is) staging sha256 h =
      elim (Fallible-cases (download sha256_of answer i.path i.sha256 i.size staging)) [
        | inl (next, ran) ↦
            let kept = Ensures-done (download-Ensures i.path i.sha256 i.size staging) ran in
            rw (ran, download_all) (download_all-still is next sha256 (kept.still sha256 h))
        | inr (error, ran) ↦ rw (ran, download_all) h
      ]

  download_all-next :
      (i : Install) (is : List Install) (staging next : Files)
      → download sha256_of answer i.path i.sha256 i.size staging ≡ done next
      → download_all sha256_of answer (i ∷ is) staging ≡ download_all sha256_of answer is next
  unfolding download_all
  download_all-next i is staging next ran = rw (ran, download_all) refl

  -- When the downloads of a plan end without an error, each file that it installs is prepared, and
  -- what is prepared under a fingerprint has it.
  pub download_all-ArePrepared :
      (is : List Install) (staging : Files)
      → (download_all sha256_of answer is staging).0 ≡ none
      → All (λ i. IsPrepared (download_all sha256_of answer is staging).1 i.sha256) is
  unfolding download_all
  download_all-ArePrepared [] staging h = tt
  download_all-ArePrepared (i ∷ is) staging h =
      elim (Fallible-cases (download sha256_of answer i.path i.sha256 i.size staging)) [
        | inl (next, ran) ↦
            let kept = Ensures-done (download-Ensures i.path i.sha256 i.size staging) ran in
            let step = download_all-next i is staging next ran in
            let rest = ap (λ r. r.0) (sym step) ∙ h in
            subst (λ r. All (λ j. IsPrepared r.1 j.sha256) (i ∷ is)) (sym step)
              (
                download_all-still is next i.sha256 kept.ready,
                download_all-ArePrepared is next rest,
              )
        | inr (error, ran) ↦ let bad = rw (ran, download_all) at h in cc
      ]
