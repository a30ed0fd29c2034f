-- ===== src/Assignment/Valid.antt =====
-- internal/types/types.go: the assignments that Validate accepts.
use rungpu_agent.Base.{
  ℕ, ◌*◌, ◌≤◌, ◌≡◌, ◌≢◌, ◌↔◌, refl, ℤ, pos, negsuc, ltb_ℤ, leb_ℤ, String, Bool, true, false, not,
  ◌&&◌, ◌||◌, List, [], ◌∷◌, none, codes, All, All-map, any, clean, ◌==◌, ◌/=◌, string_eq, nat_eq,
  list_eq, list_beq_iff, or_false, if_error, if_checked, arith,
}
use text.Mathlib.TextEquality.{eq_iff}
use rungpu_agent.Types.{JobAssignment, CustomFile, valid_job_id}
use rungpu_agent.Assignment.{
  invalid_workflow_json, workflow_sha256_required, workflow_overridden, custom_file_sha256_required,
  unsupported_version, invalid_job_id, model_name_required, runtime_required, job_protocol_version,
  is_sha256_text, utf8_bytes, is_workflow_path, is_bad_workflow, check_workflow, check_files,
  validate_assignment,
}

any-false {ℓ} :
    {A : Type ℓ} (p : A → Bool) (xs : List A) → (any p xs ≡ false) ↔ All (λ x. p x ≡ false) xs
any-false p [] = ground arith
any-false p (x ∷ xs) =
    let both = or_false (p x) (any p xs) in
    let rest = any-false p xs in
    (
      λ h. let (here, others) = both.0 h in (here, rest.0 others),
      λ (here, others). both.1 (here, rest.1 others),
    )

not-false : (b : Bool) → (not b ≡ false) ↔ (b ≡ true)
not-false b = ground arith

nonempty : (s : String) → ((s == "") ≡ false) ↔ (s ≢ "")
nonempty s = ground (arith, eq_iff s "")

given : (s : String) → ((s /= "") ≡ true) ↔ (s ≢ "")
given s = ground (arith, eq_iff s "")

other_path :
    (f : CustomFile)
    → (is_workflow_path f ≡ false) ↔ (clean (codes f.path) ≢ codes "workflows/workflow.json")
unfolding is_workflow_path
other_path f = ground (arith, list_beq_iff (clean (codes f.path)) (codes "workflows/workflow.json"))

version_known :
    (v : ℤ)
    → ((ltb_ℤ v (pos 0) || ltb_ℤ job_protocol_version v) ≡ false)
      ↔ ((n : ℕ) × (n ≤ 3) × (v ≡ pos n))
version_known (pos n) = (λ h. (n, ground (arith, h), refl), λ (m, le, e). in_range m le e)
  where
    in_range :
        (m : ℕ) → m ≤ 3 → pos n ≡ pos m → (ltb_ℤ (pos n) (pos 0) || ltb_ℤ (pos 3) (pos n)) ≡ false
    in_range m le e = ground (arith, le, e)
version_known (negsuc n) =
    (λ h. absurd (ground (arith, h)), λ (m, le, e). absurd (ground (arith, e)))

runtime_named :
    (needed : Bool) (r : String) → ((needed && r == "") ≡ false) ↔ (needed ≡ true → r ≢ "")
runtime_named true r = ground (arith, eq_iff r "")
runtime_named false r = ground arith

module _ (json_valid : String → Bool) where
  -- What an inline workflow must be.
  pub record IsWorkflow (a : JobAssignment) : Type 0 where
    pub small : utf8_bytes (codes a.workflow_json) ≤ 256 * 1024
    pub json : json_valid a.workflow_json ≡ true
    pub digest : is_sha256_text a.workflow_sha256 ≡ true
    pub own_path : All (λ f. clean (codes f.path) ≢ codes "workflows/workflow.json") a.custom_files

  -- What the pool's assignment must be, by the version of the protocol that it names.
  pub record IsValid (a : JobAssignment) : Type 0 where
    pub version : (v : ℕ) × (v ≤ 3) × (a.protocol_version ≡ pos v)
    pub id : valid_job_id a.job_id ≡ true
    pub model : a.model_name ≢ ""
    pub runtime : leb_ℤ (pos 1) a.protocol_version ≡ true → a.runtime ≢ ""
    pub files :
        leb_ℤ (pos 2) a.protocol_version ≡ true
        → All (λ f. is_sha256_text f.sha256 ≡ true) a.custom_files
    pub workflow : leb_ℤ (pos 2) a.protocol_version ≡ true → a.workflow_json ≢ "" → IsWorkflow a

  good_workflow :
      (json : String)
      → (is_bad_workflow json_valid json ≡ false)
        ↔ ((utf8_bytes (codes json) ≤ 256 * 1024) × (json_valid json ≡ true))
  unfolding is_bad_workflow
  good_workflow json = ground arith

  check_workflow-none : (a : JobAssignment) → (check_workflow json_valid a ≡ none) ↔ IsWorkflow a
  unfolding check_workflow
  check_workflow-none a =
      let last = if_error (any is_workflow_path a.custom_files) workflow_overridden none in
      let digest = if_error (not (is_sha256_text a.workflow_sha256)) workflow_sha256_required _ in
      let first = if_error (is_bad_workflow json_valid a.workflow_json) invalid_workflow_json _ in
      let paths = any-false is_workflow_path a.custom_files in
      let good = good_workflow a.workflow_json in
      let hex = not-false (is_sha256_text a.workflow_sha256) in
      (
        λ h.
            let (w, h1) = first.0 h in
            let (d, h2) = digest.0 h1 in
            let (p, done) = last.0 h2 in
            let (small, json) = good.0 w in
            record {
              small = small;
              json = json;
              digest = hex.0 d;
              own_path = All-map (λ f. (other_path f).0) a.custom_files (paths.0 p);
            },
        λ v. first.1 (
          good.1 (v.small, v.json),
          digest.1 (
            hex.1 v.digest,
            last.1 (paths.1 (All-map (λ f. (other_path f).1) a.custom_files v.own_path), refl),
          ),
        ),
      )

  check_files-none :
      (a : JobAssignment)
      → (check_files json_valid a ≡ none) ↔ (
          All (λ f. is_sha256_text f.sha256 ≡ true) a.custom_files
          × (a.workflow_json ≢ "" → IsWorkflow a))
  unfolding check_files
  check_files-none a =
      let first =
        if_error (any (λ f. not (is_sha256_text f.sha256)) a.custom_files)
          custom_file_sha256_required _ in
      let workflow = if_checked (a.workflow_json /= "") (check_workflow json_valid a) in
      let each = any-false (λ f. not (is_sha256_text f.sha256)) a.custom_files in
      let inner = check_workflow-none a in
      let present = given a.workflow_json in
      (
        λ h.
            let (f, w) = first.0 h in
            (
              All-map (λ f. (not-false (is_sha256_text f.sha256)).0) a.custom_files (each.0 f),
              λ some_json. inner.0 (workflow.0 w (present.1 some_json)),
            ),
        λ (f, w). first.1 (
          each.1 (All-map (λ f. (not-false (is_sha256_text f.sha256)).1) a.custom_files f),
          workflow.1 (λ some_json. inner.1 (w (present.0 some_json))),
        ),
      )

  -- Validate accepts an assignment exactly if its protocol version is 0 to 3; its job id is valid
  -- and its model is named; from version 1 on, its runtime is named; and from version 2 on, every
  -- custom file has a SHA-256 in 64 lower-case hexadecimal digits, and an inline workflow, if there
  -- is one, is at most 256 KiB of valid JSON with such a SHA-256 whose place no custom file takes,
  -- however its path is written.
  pub validate_assignment-none :
      (a : JobAssignment) → (validate_assignment json_valid a ≡ none) ↔ IsValid a
  unfolding validate_assignment
  validate_assignment-none a =
      let first =
        if_error (ltb_ℤ a.protocol_version (pos 0) || ltb_ℤ job_protocol_version a.protocol_version)
          unsupported_version _ in
      let second = if_error (not (valid_job_id a.job_id)) invalid_job_id _ in
      let third = if_error (a.model_name == "") model_name_required _ in
      let fourth =
        if_error (leb_ℤ (pos 1) a.protocol_version && a.runtime == "") runtime_required _ in
      let last = if_checked (leb_ℤ (pos 2) a.protocol_version) (check_files json_valid a) in
      let version = version_known a.protocol_version in
      let id = not-false (valid_job_id a.job_id) in
      let model = nonempty a.model_name in
      let runtime = runtime_named (leb_ℤ (pos 1) a.protocol_version) a.runtime in
      let files = check_files-none a in
      (
        λ h.
            let (v, h1) = first.0 h in
            let (i, h2) = second.0 h1 in
            let (m, h3) = third.0 h2 in
            let (r, h4) = fourth.0 h3 in
            record {
              version = version.0 v;
              id = id.0 i;
              model = model.0 m;
              runtime = runtime.0 r;
              files = λ two. (files.0 (last.0 h4 two)).0;
              workflow = λ two. (files.0 (last.0 h4 two)).1;
            },
        λ v. first.1 (
          version.1 v.version,
          second.1 (
            id.1 v.id,
            third.1 (
              model.1 v.model,
              fourth.1 (runtime.1 v.runtime, last.1 (λ two. files.1 (v.files two, v.workflow two))),
            ),
          ),
        ),
      )
