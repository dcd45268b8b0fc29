-- ===== src/Cron/Cleanup.antt =====
-- services/cron/cleanup_ads.py. A path is its text as it stands in the URL; whether a path, once
-- resolved, lies in ADS_DIR is a parameter. The files are the paths that exist.
use fm.Base.{
  ℕ, suc, String, Bool, true, false, Option, none, some, List, [], ◌∷◌, keep, count_if,
  if◌then◌else◌, string_eq, update as update_key, strip,
}
use fm.Table.{Table}
use fm.Ads.Records.{played, rejected, Ad}

unfoldable pub is_terminal : Ad → Bool
is_terminal ad = elim ad.status [ played ↦ true | rejected ↦ true | _ ↦ false ]

module _ (is_inside : String → Bool) where
  unfoldable pub audio_path_from_url : String → Option String
  unfolding strip
  audio_path_from_url audio_url = elim (strip "file://" audio_url) [
    | none ↦ none
    | some path ↦ if is_inside path then some path else none
  ]

  -- The file of one ad goes, if there is one.
  unfoldable pub unlink : Option String → (String → Bool) → (String → Bool) × Bool
  unlink none files = (files, false)
  unlink (some path) files = (if files path then update_key files path false else files, files path)

  -- The loop over the ads: the files that are left and how many were deleted.
  unfoldable pub delete_files : List Ad → (String → Bool) → (String → Bool) × ℕ
  unfolding audio_path_from_url unlink
  delete_files [] files = (files, 0)
  delete_files (ad ∷ ads) files =
      let step = unlink (audio_path_from_url ad.audio_url) files in
      let left = delete_files ads step.0 in (left.0, if step.1 then suc left.1 else left.1)

  module _ (table : Table (λ (row : Ad). row.id)) where
    open table use {Db, rows, delete}

    pub record Cleaned : Type 0 where
      pub rows_deleted : ℕ
      pub files_deleted : ℕ

    unfoldable pub cleanup_expired_ads : Db → (String → Bool) → Cleaned × Db × (String → Bool)
    unfolding is_terminal delete_files keep count_if
    cleanup_expired_ads db files =
        let left = delete_files (keep is_terminal (rows db)) files in
        (
          record { rows_deleted = count_if is_terminal (rows db); files_deleted = left.1 },
          delete is_terminal db,
          left.0,
        )
