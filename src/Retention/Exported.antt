-- ===== src/Retention/Exported.antt =====
-- What `LocalWORMExporter.export` of runeguard/audit_compliance.py leaves in its destination.
use runeguard.Prelude.{
  Text, Bool-cases, List, [], ◌∷◌, ◌==◌, ==_refl, ==_iff, list_eq, nat_eq, none, some, Option-cases,
  ◌≡◌, ◌⊎◌, inl, inr, refl, sym, ap, ◌∙◌,
}
use runeguard.Effects.{Exit, Action, follow, done, failed, pure, ◌>>=◌, done-cases, pure-done}
use runeguard.Effects.Keeping.{Keeps, bind-Keeps}
use runeguard.Retention.{Segment}
use runeguard.Retention.Exporting.{
  Receipt, WormStore, AuditFiles, held, object_name, receipt_name, receipt_of, export_file,
  export_files, segments_in, candidates, export,
}

-- The files of the first list are all in the second, with the same contents.
abbrev pub Includes : {A : Type 0} → List (Text × A) → List (Text × A) → Type 0
Includes files more =
    (name : Text) (value : _) → held name files ≡ some value → held name more ≡ some value

-- Everything in the first store is in the second, unchanged.
abbrev pub Extends : WormStore → WormStore → Type 0
Extends store more = Includes store.objects more.objects × Includes store.receipts more.receipts

abbrev pub Among : Text → List Text → Type 0
Among path [] = ⊥
Among path (p ∷ paths) = (p ≡ path) ⊎ Among path paths

some-same : {A : Type 0} (a b : A) → some a ≡ some b → a ≡ b
some-same a b h = cc

Includes-cons :
    {A : Type 0} (name : Text) (value : A) (files : List (Text × A))
    → held name files ≡ none
    → Includes files ((name, value) ∷ files)
unfolding held
Includes-cons name value files free other found h = elim (Bool-cases (name == other)) [
  | inl e ↦
      let gone : held other files ≡ none =
        ap (λ n. held n files) (sym ((==_iff name other).0 e)) ∙ free in
      cc
  | inr e ↦ rw e h
]

held-cons :
    {A : Type 0} (name : Text) (value : A) (files : List (Text × A))
    → held name ((name, value) ∷ files) ≡ some value
unfolding held
held-cons name value files = rw (==_refl name) refl

Includes-trans :
    {A : Type 0} (files more most : List (Text × A))
    → Includes files more
    → Includes more most
    → Includes files most
Includes-trans files more most h k name value found = k name value (h name value found)

module _ (file_sha256 : List Text → Text) (path_of_object : Text → Text) where
  -- The lines of a file are kept under a name with its digest, and a receipt says so.
  abbrev pub Archived : Text → List Text → WormStore → Type 0
  Archived path lines store =
      (receipt : Receipt) × (held (object_name file_sha256 path_of_object path lines) store.objects
        ≡ some lines)
      × (held (receipt_name file_sha256 path_of_object path lines) store.receipts ≡ some receipt)
      × (receipt.sha256 ≡ file_sha256 lines)
      × (receipt.object_path ≡ path_of_object (object_name file_sha256 path_of_object path lines))

  Archived-Extends :
      (path : Text) (lines : List Text) (store more : WormStore)
      → Extends store more
      → Archived path lines store
      → Archived path lines more
  Archived-Extends path lines store more (objects, receipts) (receipt, kept, found, digest, at) =
      (receipt, objects _ lines kept, receipts _ receipt found, digest, at)

  module _ (now : Text) where
    -- An attempt of one file fails and changes nothing, or archives it.
    export_file-cases :
        (segments : List Segment) (path : Text) (lines : List Text) (store : WormStore)
        → (export_file file_sha256 path_of_object now segments path lines store ≡ (failed, store))
          ⊎ ((receipt : Receipt) × (more : WormStore) × (export_file file_sha256 path_of_object now
                  segments path lines store
                ≡ (done receipt, more))
              × Extends store more
              × Archived path lines more)
    unfolding export_file receipt_of
    export_file-cases segments path lines store =
        elim (Option-cases
          (held (receipt_name file_sha256 path_of_object path lines) store.receipts)) [
            | inr (receipt, found) ↦ inl (rw (export_file, found) refl)
            | inl free ↦
                elim (Option-cases
                  (held (object_name file_sha256 path_of_object path lines) store.objects)) [
                    | inr (object, found) ↦ inl (rw (export_file, free, found) refl)
                    | inl free' ↦ inr (
                      receipt_of file_sha256 path_of_object now segments path lines,
                      record {
                        objects =
                            (object_name file_sha256 path_of_object path lines, lines)
                            ∷ store.objects;
                        receipts =
                            (
                              receipt_name file_sha256 path_of_object path lines,
                              receipt_of file_sha256 path_of_object now segments path lines,
                            )
                            ∷ store.receipts;
                      },
                      rw (export_file, free, free') refl,
                      (
                        Includes-cons _ _ store.objects free',
                        Includes-cons _ _ store.receipts free,
                      ),
                      (
                        receipt_of file_sha256 path_of_object now segments path lines,
                        held-cons _ _ store.objects,
                        held-cons _ _ store.receipts,
                        refl,
                        refl,
                      ),
                    )
                  ]
          ]

    follow-failed :
        {A B : Type 0} (e : Exit A) (f : A → Action WormStore B) (store : WormStore)
        → e ≡ failed
        → (follow e f store).0 ≡ failed
    follow-failed e f store h = rw h refl

    Extends-refl : (store : WormStore) → Extends store store
    Extends-refl store = (λ name value h. h, λ name value h. h)

    Extends-trans :
        (store more most : WormStore) → Extends store more → Extends more most → Extends store most
    Extends-trans store more most h k = (
      Includes-trans store.objects more.objects most.objects h.0 k.0,
      Includes-trans store.receipts more.receipts most.receipts h.1 k.1,
    )

    export_file-Extends :
        (segments : List Segment) (path : Text) (lines : List Text) (store : WormStore)
        → Extends store (export_file file_sha256 path_of_object now segments path lines store).1
    export_file-Extends segments path lines store =
        elim (export_file-cases segments path lines store) [
          | inl stays ↦ rw stays (Extends-refl store)
          | inr (receipt, more, ran, extends, archived) ↦ rw ran extends
        ]

    export_file-Archived :
        (segments : List Segment) (path : Text) (lines : List Text) (store more : WormStore)
        (receipt : Receipt)
        → export_file file_sha256 path_of_object now segments path lines store
          ≡ (done receipt, more)
        → Archived path lines more
    export_file-Archived segments path lines store more receipt h =
        elim (export_file-cases segments path lines store) [
          | inl stays ↦ cc
          | inr (receipt', more', ran, extends, archived) ↦
              let same : more' ≡ more = cc in rw same at archived
        ]

    export_file-repeated :
        (segments : List Segment) (path : Text) (lines : List Text) (store : WormStore)
        → Archived path lines store
        → export_file file_sha256 path_of_object now segments path lines store ≡ (failed, store)
    unfolding export_file
    export_file-repeated segments path lines store (receipt, kept, found, digest, at) =
        rw (export_file, found) refl

    module _ (files : AuditFiles) (segments : List Segment) (path : Text) (paths : List Text) where
      export_files-absent :
          (store : WormStore)
          → files.file_at path ≡ none
          → export_files file_sha256 path_of_object now files segments (path ∷ paths) store
            ≡ export_files file_sha256 path_of_object now files segments paths store
      unfolding export_files
      export_files-absent store absent = rw (export_files, absent) refl

      export_files-there :
          (lines : List Text) (store : WormStore)
          → files.file_at path ≡ some lines
          → export_files file_sha256 path_of_object now files segments (path ∷ paths) store
            ≡ (export_file file_sha256 path_of_object now segments path lines >>= λ receipt.
                  export_files file_sha256 path_of_object now files segments paths >>= λ receipts.
                  pure (receipt ∷ receipts))
                store
      unfolding export_files
      export_files-there lines store there = rw (export_files, there) refl

    -- What every store keeps that extends a given one.
    export_files-Keeps :
        (files : AuditFiles) (segments : List Segment) (paths : List Text) (start : WormStore)
        → Keeps (Extends start) (export_files file_sha256 path_of_object now files segments paths)
    unfolding export_files
    export_files-Keeps files segments [] start store kept = kept
    export_files-Keeps files segments (path ∷ paths) start store kept =
        elim (Option-cases (files.file_at path)) [
          | inl absent ↦
              rw (export_files-absent files segments path paths store absent)
                (export_files-Keeps files segments paths start store kept)
          | inr (lines, there) ↦
              rw (export_files-there files segments path paths lines store there) (
                bind-Keeps (Extends start)
                  (export_file file_sha256 path_of_object now segments path lines) _
                  (λ s k. Extends-trans start s _ k (export_file-Extends segments path lines s))
                  (λ receipt.
                    bind-Keeps (Extends start)
                      (export_files file_sha256 path_of_object now files segments paths) _
                      (export_files-Keeps files segments paths start) (λ receipts s k. k))
                  store kept)
        ]

    -- A file that is archived is still archived behind an export.
    export_files-archives :
        (files : AuditFiles) (segments : List Segment) (paths : List Text) (store more : WormStore)
        (receipts : List Receipt) (path : Text) (lines : List Text)
        → export_files file_sha256 path_of_object now files segments paths store
          ≡ (done receipts, more)
        → Among path paths
        → files.file_at path ≡ some lines
        → Archived path lines more
    export_files-archives files segments [] store more receipts path lines ran among there =
        absurd among
    export_files-archives files segments (p ∷ paths) store more receipts path lines ran among
          there =
        elim (Option-cases (files.file_at p)) [
          | inl absent ↦ elim among [
            | inl same ↦ cc
            | inr later ↦
                export_files-archives files segments paths store more receipts path lines
                  (sym (export_files-absent files segments p paths store absent) ∙ ran) later there
          ]
          | inr (ls, found) ↦
              done-cases (export_file file_sha256 path_of_object now segments p ls) _ store
                (sym (export_files-there files segments p paths ls store found) ∙ ran)
                λ receipt s h k.
                  done-cases (export_files file_sha256 path_of_object now files segments paths) _ s
                    k
                    λ rs s' h' k'.
                      let (_, e) = pure-done (receipt ∷ rs) receipts s' more k' in
                      elim among [
                        | inl same ↦
                            let same_lines =
                              some-same ls lines (sym found ∙ ap files.file_at same ∙ there) in
                            let ends = h' ∙ ap (λ w. (done rs, w)) e in
                            let extends : Extends s more =
                              rw ends at
                                (export_files-Keeps files segments paths s s (Extends-refl s)) in
                            rw (sym same, sym same_lines)
                              (Archived-Extends p ls s more extends
                                (export_file-Archived segments p ls store s receipt h))
                        | inr later ↦
                            export_files-archives files segments paths s more rs path lines
                              (h' ∙ ap (λ w. (done rs, w)) e) later there
                      ]
        ]

    export_files-repeated :
        (files : AuditFiles) (segments : List Segment) (paths : List Text) (store : WormStore)
        (path : Text) (lines : List Text)
        → Archived path lines store
        → Among path paths
        → files.file_at path ≡ some lines
        → (export_files file_sha256 path_of_object now files segments paths store).0 ≡ failed
    export_files-repeated files segments [] store path lines archived among there = absurd among
    export_files-repeated files segments (p ∷ paths) store path lines archived among there =
        elim (Option-cases (files.file_at p)) [
          | inl absent ↦ elim among [
            | inl same ↦ cc
            | inr later ↦
                rw (export_files-absent files segments p paths store absent)
                  (export_files-repeated files segments paths store path lines archived later there)
          ]
          | inr (ls, found) ↦
              rw (export_files-there files segments p paths ls store found) (elim among [
                | inl same ↦
                    let same_lines =
                      some-same ls lines (sym found ∙ ap files.file_at same ∙ there) in
                    let again : Archived p ls store = rw (same, same_lines) archived in
                    rw (export_file-repeated segments p ls store again) refl
                | inr later ↦ elim (export_file-cases segments p ls store) [
                  | inl stays ↦ rw stays refl
                  | inr (receipt, more, ran, extends, new) ↦ rw (ran) (
                      follow-failed _ _ _ (
                        export_files-repeated files segments paths more path lines
                          (Archived-Extends path lines store more extends archived) later there))
                ]
              ])
        ]

  -- Whatever an export does, and also where it raises: every object and every receipt that was in
  -- the destination before is still there, unchanged.
  pub export-Extends :
      (now : Text) (files : AuditFiles) (store : WormStore)
      → Extends store (export file_sha256 path_of_object now files store).1
  unfolding export
  export-Extends now files store =
      export_files-Keeps now files (segments_in file_sha256 path_of_object now files)
        (candidates file_sha256 path_of_object now files) store store (Extends-refl now store)

  -- An export that succeeds has archived each closed segment of the manifest whose file is there,
  -- and the manifest: the lines are kept under a name with their digest, and a receipt has the
  -- digest and the place. But every later export, at any time, of a directory in which that file is
  -- still exported and has the same lines, raises.
  pub export-archives_once :
      (now later : Text) (files files' : AuditFiles) (store more : WormStore)
      (receipts : List Receipt) (path : Text) (lines : List Text)
      → export file_sha256 path_of_object now files store ≡ (done receipts, more)
      → Among path (candidates file_sha256 path_of_object now files)
      → files.file_at path ≡ some lines
      → Among path (candidates file_sha256 path_of_object later files')
      → files'.file_at path ≡ some lines
      → Archived path lines more
        × ((export file_sha256 path_of_object later files' more).0 ≡ failed)
  unfolding export
  export-archives_once now later files files' store more receipts path lines ran among there among'
        there' =
      let archived =
        export_files-archives now files _ _ store more receipts path lines ran among there in
      (archived, export_files-repeated later files' _ _ more path lines archived among' there')
