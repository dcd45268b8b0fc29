-- ===== src/Cron/Remains.antt =====
-- What a clean-up of the ads leaves.
use fm.Base.{
  String, ◌+◌, ◌≡◌, ◌∙◌, ap, Bool, false, ◌||◌, ◌&&◌, not, Option, none, some, List, [], ◌∷◌, keep,
  any, length, length-keep, count_if, arith, if◌then◌else◌, ◌==◌, string_eq, string_iff, Bool-cases,
  inl, inr, update as update_key,
}
use fm.Table.{Table}
use fm.Ads.Records.{Ad}
use fm.Cron.Cleanup.{is_terminal, audio_path_from_url, unlink, delete_files, cleanup_expired_ads}

module _ (is_inside : String → Bool) where
  abbrev pub same_path : String → Option String → Bool
  same_path path none = false
  same_path path (some p) = p == path

  -- The ad's file is the path, and lies in the directory.
  abbrev pub names : String → Ad → Bool
  names path ad = same_path path (audio_path_from_url is_inside ad.audio_url)

  unlinked :
      (p path : String) (files : String → Bool)
      → (if files p then update_key files p false else files) path ≡ (files path && not (p == path))
  unlinked p path files = elim (Bool-cases (p == path)) [
    | inl e ↦ ground (arith, e, ap files ((string_iff p path).0 e))
    | inr e ↦ ground (arith, e)
  ]

  unlink-left :
      (o : Option String) (path : String) (files : String → Bool)
      → (unlink is_inside o files).0 path ≡ (files path && not (same_path path o))
  unfolding unlink
  unlink-left none path files = ground arith
  unlink-left (some p) path files = unlinked p path files

  both : (x a b : Bool) → ((x && not a) && not b) ≡ (x && not (a || b))
  both x a b = ground arith

  delete_files-left :
      (path : String) (ads : List Ad) (files : String → Bool)
      → (delete_files is_inside ads files).0 path ≡ (files path && not (any (names path) ads))
  unfolding delete_files any
  delete_files-left path [] files = ground arith
  delete_files-left path (ad ∷ ads) files =
      let found = audio_path_from_url is_inside ad.audio_url in
      delete_files-left path ads (unlink is_inside found files).0
      ∙ ap (λ left. left && not (any (names path) ads)) (unlink-left found path files)
      ∙ both (files path) (same_path path found) (any (names path) ads)

  count-not :
      (q : Ad → Bool) (ads : List Ad) → count_if q ads + count_if (λ a. not (q a)) ads ≡ length ads
  unfolding count_if
  count-not q [] = omega arith
  count-not q (a ∷ ads) = ground (arith, count-not q ads)

  module _ (table : Table (λ (row : Ad). row.id)) where
    open table use {Db, rows}

    -- After a clean-up the table holds exactly the ads that are neither played nor rejected, in their
    -- order, and the answer counts the others; of the files exactly those are gone that such an ad names
    -- inside the directory.
    pub cleanup_expired_ads-left :
        (db : Db) (files : String → Bool)
        → let (cleaned, db', files') = cleanup_expired_ads is_inside table db files in
          (rows db' ≡ keep (λ ad. not (is_terminal ad)) (rows db))
          × (cleaned.rows_deleted + length (rows db') ≡ length (rows db))
          × ((path : String)
              → files' path ≡ (files path && not (any (names path) (keep is_terminal (rows db)))))
    unfolding cleanup_expired_ads
    cleanup_expired_ads-left db files = (
      table.rows-delete is_terminal db,
      omega (
        arith,
        ap length (table.rows-delete is_terminal db),
        length-keep (λ ad. not (is_terminal ad)) (rows db),
        count-not is_terminal (rows db),
      ),
      (λ path. delete_files-left path (keep is_terminal (rows db)) files),
    )
