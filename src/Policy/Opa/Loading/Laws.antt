-- ===== src/Policy/Opa/Loading/Laws.antt =====
-- What the loaded modules are.
use database_gateway.Common.{
  ◌≡◌, refl, sym, ap, ◌∙◌, ◌⊎◌, inl, inr, ◌↔◌, String, true, false, ◌==◌, some, List, [], ◌∷◌, Map,
  lookup, insert, lookup-insert, eq_iff, eq_refl, subst, ok, ok_injective, Result-cases, Bool-cases,
  arith, Some, Some-map_to, ◌<>◌, ◌==◌,
}
use database_gateway.Policy.Opa.Loading.{
  DirEntry, Files, is_policy, file_ext, load_entries, load_modules, is_none,
}
use database_gateway.Policy.Opa.Loading.Extension.{file_ext-ends, file_ext-append}

module _ (files : Files) (dir : String) where
  abbrev IsKept : String → DirEntry → Type 0
  IsKept name entry = (entry.name ≡ name) × (is_policy entry ≡ true)

  abbrev AreTexts : Map String → Type 0
  AreTexts modules =
      (name text : String) → lookup name modules ≡ some text → files.read_file dir name ≡ ok text

  -- What the loop has done with the modules it was given.
  record IsLoaded (entries : List DirEntry) (before after : Map String) : Type 0 where
    texts : AreTexts before → AreTexts after
    sources :
        (name text : String)
        → lookup name after ≡ some text
        → Some (IsKept name) entries ⊎ (lookup name before ≡ some text)
    loaded :
        (name : String)
        → Some (IsKept name) entries ⊎ ((t : String) × (lookup name before ≡ some t))
        → (t : String) × (lookup name after ≡ some t)

  insert-AreTexts :
      (name text : String) (before : Map String)
      → files.read_file dir name ≡ ok text
      → AreTexts before
      → AreTexts (insert name text before)
  insert-AreTexts name text before read texts k t h = elim (Bool-cases (name == k)) [
    | inl same ↦
        let saved : some text ≡ some t =
          sym (lookup-insert name k text before ∙ rw same refl) ∙ h in
        cc (read, saved, (eq_iff name k).0 same)
    | inr other ↦ texts k t (sym (lookup-insert name k text before ∙ rw other refl) ∙ h)
  ]

  IsLoaded-insert :
      (entry : DirEntry) (entries : List DirEntry) (text : String) (before after : Map String)
      → is_policy entry ≡ true
      → files.read_file dir entry.name ≡ ok text
      → IsLoaded entries (insert entry.name text before) after
      → IsLoaded (entry ∷ entries) before after
  IsLoaded-insert entry entries text before after policy read later = record {
    texts = λ given. later.texts (insert-AreTexts entry.name text before read given);
    sources = λ name t h. elim (later.sources name t h) [
      | inl listed ↦ inl (inr listed)
      | inr had ↦ elim (Bool-cases (entry.name == name)) [
        | inl same ↦ inl (inl ((eq_iff entry.name name).0 same, policy))
        | inr other ↦ inr (sym (lookup-insert entry.name name text before ∙ rw other refl) ∙ had)
      ]
    ];
    loaded = λ name given. later.loaded name (elim (Bool-cases (entry.name == name)) [
      | inl same ↦ inr (text, lookup-insert entry.name name text before ∙ rw same refl)
      | inr other ↦ elim given [
        | inl (inl (own, _)) ↦ let bad : ⊥ = cc (other, own, eq_refl name) in elim bad [ ]
        | inl (inr listed) ↦ inl listed
        | inr (t, had) ↦ inr (t, lookup-insert entry.name name text before ∙ rw other had)
      ]
    ]);
  }

  IsLoaded-skip :
      (entry : DirEntry) (entries : List DirEntry) (before after : Map String)
      → is_policy entry ≡ false
      → IsLoaded entries before after
      → IsLoaded (entry ∷ entries) before after
  IsLoaded-skip entry entries before after skipped later = record {
    texts = later.texts;
    sources = λ name t h. elim (later.sources name t h) [
      | inl listed ↦ inl (inr listed)
      | inr had ↦ inr had
    ];
    loaded = λ name given. later.loaded name (elim given [
      | inl (inl (_, policy)) ↦ let bad : ⊥ = cc (skipped, policy) in elim bad [ ]
      | inl (inr listed) ↦ inl listed
      | inr had ↦ inr had
    ]);
  }

  load_entries-IsLoaded :
      (entries : List DirEntry) (before after : Map String)
      → load_entries files dir entries before ≡ ok after
      → IsLoaded entries before after
  unfolding load_entries
  load_entries-IsLoaded [] before after h =
      let e : before ≡ after = ok_injective h in
      record {
        texts = λ given. subst AreTexts e given;
        sources = λ name text k. inr (subst (λ m. lookup name m ≡ some text) (sym e) k);
        loaded = λ name given. elim given [
          | inl listed ↦ elim listed [ ]
          | inr (t, had) ↦ (t, subst (λ m. lookup name m ≡ some t) e had)
        ];
      }
  load_entries-IsLoaded (entry ∷ entries) before after h = elim (Bool-cases (is_policy entry)) [
    | inr skipped ↦
        IsLoaded-skip entry entries before after skipped
          (load_entries-IsLoaded entries before after (rw skipped at h))
    | inl policy ↦ elim (Result-cases (files.read_file dir entry.name)) [
      | inl (text, read) ↦
          IsLoaded-insert entry entries text before after policy read
            (load_entries-IsLoaded entries _ after (rw (policy, read) at h))
      | inr (e, failed) ↦ let bad : ⊥ = cc (rw (policy, failed) at h) in elim bad [ ]
    ]
  ]

  load_modules-cases :
      (entries : List DirEntry) (modules : Map String)
      → files.read_dir dir ≡ ok entries
      → load_modules files dir ≡ ok modules
      → (load_entries files dir entries [] ≡ ok modules) × (is_none modules ≡ false)
  unfolding load_modules
  load_modules-cases entries modules listed h =
      elim (Result-cases (load_entries files dir entries [])) [
        | inr (e, failed) ↦
            let bad : ⊥ = cc (rw (listed, failed, load_modules) at h) in elim bad [ ]
        | inl (m, loaded) ↦ elim (Bool-cases (is_none m)) [
          | inl empty ↦
              let bad : ⊥ = cc (rw (listed, loaded, empty, load_modules) at h) in elim bad [ ]
          | inr filled ↦
              let e : m ≡ modules = ok_injective (rw (listed, loaded, filled, load_modules) at h) in
              rw (← e) (loaded, filled)
        ]
      ]

  -- A file, not a directory, that has the name, which ends in `.rego`.
  abbrev pub IsPolicyFile : String → DirEntry → Type 0
  IsPolicyFile name entry =
      (entry.name ≡ name) × (entry.is_dir ≡ false) × (stem : String) × (name ≡ stem <> ".rego")

  IsKept-IsPolicyFile :
      (name : String) (entry : DirEntry) → IsKept name entry → IsPolicyFile name entry
  unfolding is_policy
  IsKept-IsPolicyFile name entry (named, kept) =
      let no_dir : entry.is_dir ≡ false = ground arith in
      let same : (file_ext entry.name == ".rego") ≡ true = ground arith in
      let (stem, e) = file_ext-ends entry.name in
      let ext : file_ext entry.name ≡ ".rego" = (eq_iff (file_ext entry.name) ".rego").0 same in
      (named, no_dir, stem, sym named ∙ (e ∙ ap (λ x. stem <> x) ext))

  IsPolicyFile-IsKept :
      (name : String) (entry : DirEntry) → IsPolicyFile name entry → IsKept name entry
  unfolding is_policy
  IsPolicyFile-IsKept name entry (named, no_dir, stem, e) =
      let ext : file_ext entry.name ≡ ".rego" = ap file_ext (named ∙ e) ∙ file_ext-append stem in
      let same : (file_ext entry.name == ".rego") ≡ true =
        (eq_iff (file_ext entry.name) ".rego").1 ext in
      (named, ground arith)

  -- When LoadModules succeeds, the modules it gives are the files of the directory whose names end
  -- in `.rego`, each under its name and with the text read from it, and there is at least one.
  pub load_modules_iff :
      (entries : List DirEntry) (modules : Map String)
      → files.read_dir dir ≡ ok entries
      → load_modules files dir ≡ ok modules
      → (is_none modules ≡ false)
        × ((name text : String)
            → (lookup name modules ≡ some text)
              ↔ (Some (IsPolicyFile name) entries × (files.read_file dir name ≡ ok text)))
  unfolding lookup
  load_modules_iff entries modules listed h =
      let (loaded, filled) = load_modules-cases entries modules listed h in
      let l = load_entries-IsLoaded entries [] modules loaded in
      let texts : AreTexts modules = l.texts λ name text k. let bad : ⊥ = cc k in elim bad [ ] in
      (
        filled,
        λ name text. (
          λ k. (
            elim (l.sources name text k) [
              | inl file ↦ Some-map_to (λ entry. IsKept-IsPolicyFile name entry) entries file
              | inr old ↦ let bad : ⊥ = cc old in elim bad [ ]
            ],
            texts name text k,
          ),
          λ (file, read).
              let (t, k) =
                l.loaded name
                  (inl (Some-map_to (λ entry. IsPolicyFile-IsKept name entry) entries file)) in
              k ∙ ap some (ok_injective (sym (texts name t k) ∙ read)),
        ),
      )
