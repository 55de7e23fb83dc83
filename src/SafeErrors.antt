-- ===== src/SafeErrors.antt =====
-- drop/safe_errors.py: what of a refusal may enter a model's context.
pub mod Closed
use hermes_drop.Base.{
  ℕ, suc, zero, ◌+◌, ◌-◌, ◌*◌, ◌/◌, ◌%◌, ◌≤◌, ◌<◌, max, min, String, ◌<>◌, ◌≡◌, refl, sym, ap, ◌∙◌,
  ◌≢◌, ◌↔◌, ◌⊎◌, inl, inr, Bool, true, false, not, ◌&&◌, ◌||◌, Option, none, some, List, [], ◌∷◌,
  ◌++◌, map, arith, if◌then◌else◌, Eq, ◌==◌, contains, option_eq, string_eq, nat_eq, Bool-cases,
  Option-cases, ltb, leb, ltb→lt, leb→le, length, keep, any, All, length-append, length-keep-le,
  keep-All,
}
use hermes_drop.Base.{Text, text_eq, codes, is_space}
use hermes_drop.Base.Dict
use hermes_drop.Base.Dict.{Dict}

-- A value of a tool's result: `None`, a text, a boolean, or anything else by its `str` and its truth.
pub data Item : Type 0 where
  nothing : Item
  text : Text → Item
  flag : Bool → Item
  other : (shown : Text) (truth : Bool) → Item

-- A tool's result: a mapping or something else.
pub data ToolResult : Type 0 where
  mapping : Dict Text Item → ToolResult
  plain : Item → ToolResult

abbrev pub shown : Item → Text
shown nothing = codes "None"
shown (text s) = s
shown (flag true) = codes "True"
shown (flag false) = codes "False"
shown (other s truth) = s

abbrev pub is_true : Item → Bool
is_true nothing = false
is_true (text []) = false
is_true (text (c ∷ cs)) = true
is_true (flag b) = b
is_true (other s truth) = truth

-- `SAFE_REASONS`
unfoldable pub safe_reasons : Dict Text Text
safe_reasons =
    (codes "broker_unavailable", codes "the private-input service is not reachable right now")
    ∷ (
      codes "response_too_large",
      codes
          "the value is too large for this client to receive; it is still held by the private-input service until the link expires, so nothing was lost — ask for a shorter value through a new link, and tell the operator the broker's size limit is set higher than the plugin can read back",
    )
    ∷ (
      codes "broker_too_old",
      codes
          "the private-input service is running a version too old to guarantee the secret survives being read, and it is configured to accept values larger than this plugin can read back; no link was posted — the operator has to upgrade the service or lower its size limit before this can be used",
    )
    ∷ (
      codes "spool_unavailable",
      codes
          "the local staging area for files is not usable, so nothing was downloaded and the files are still held by the private-input service; tell the operator the plugin cannot write to its configured spool directory",
    )
    ∷ (
      codes "spool_busy",
      codes
          "too many file transfers are already in progress locally, so this one was not started; nothing was lost and the same claim will work again shortly",
    )
    ∷ (
      codes "spool_write_failed",
      codes
          "the files could not be written to local storage, so nothing was delivered; the drop was not used up, so this can be tried once more, and if it fails again tell the operator the plugin cannot write to its spool directory",
    )
    ∷ (
      codes "spool_publish_failed",
      codes
          "the files arrived and were verified but could not be handed over, and the private-input service has already destroyed its copy; this cannot be tried again and the user has to be asked for the files through a new link",
    )
    ∷ (
      codes "transfer_failed",
      codes
          "the file transfer did not complete, so nothing was delivered; the drop was not used up, so this can be tried once more",
    )
    ∷ (
      codes "transfer_indeterminate",
      codes
          "the file transfer ended without a verdict, so it is not known whether the files were delivered; nothing was saved, it must not be tried again, and the operator needs the drop id to check what happened",
    )
    ∷ (
      codes "outbound_unsupported",
      codes
          "the private-input service cannot hand a secret out in the way this plugin needs, so nothing was delivered and nothing was posted; the operator has to upgrade the service before secrets can be sent this way",
    )
    ∷ (codes "post_failed", codes "the link could not be posted into this conversation")
    ∷ (
      codes "journal_failed",
      codes "the durable record could not be written, so the link was retired",
    )
    ∷ (codes "edit_failed", codes "the status message could not be updated")
    ∷ (codes "invalid_request", codes "the request was not usable")
    ∷ (codes "gateway_unavailable", codes "the gateway is not available")
    ∷ (codes "gateway_timeout", codes "it took too long")
    ∷ (codes "would_deadlock", codes "the gateway is not available")
    ∷ (codes "internal_error", codes "something went wrong on this side")
    ∷ []

-- `DEFAULT_REASON`
abbrev pub default_reason : Text
default_reason = codes "it could not be completed"

-- `LOCAL_DETAIL_ERRORS`
unfoldable pub local_detail_errors : List Text
local_detail_errors =
    codes "invalid_request"
    ∷ codes "unavailable"
    ∷ codes "not_ready"
    ∷ codes "not_authorized"
    ∷ codes "platform_unsupported"
    ∷ codes "no_origin"
    ∷ codes "origin_mismatch"
    ∷ codes "origin_unverified"
    ∷ codes "no_adapter"
    ∷ codes "invalid_duration"
    ∷ []

unfoldable pub take : ℕ → Text → Text
take zero s = []
take (suc n) [] = []
take (suc n) (c ∷ s) = c ∷ take n s

-- `_as_bool`
unfoldable pub as_bool : Item → Item
as_bool (flag true) = flag true
as_bool _ = flag false

-- `str.isalnum` is Python's table.
module _ (is_alnum : ℕ → Bool) where
  -- `_as_safe_id`
  unfoldable pub as_safe_id : Item → Item
  unfolding take keep nat_eq
  as_safe_id v = text (take 64 (keep (λ c. is_alnum c || (c == b'_' || c == b'-')) (shown v)))

  -- `" ".join(text.split())`; `started` once a word has been written, `gap` where space followed it.
  unfoldable pub flatten : (started gap : Bool) → Text → Text
  flatten started gap [] = []
  flatten started gap (c ∷ s) =
      let after_space = flatten started true s in
      let after_word = flatten true false s in
      if is_space c
      then after_space
      else if started && gap
      then b' ' ∷ c ∷ after_word
      else c ∷ after_word

  -- `_as_note`
  unfoldable pub as_note : Item → Item
  unfolding take flatten
  as_note v = text (take 400 (flatten false false (shown v)))

  -- `_SAFE_ERROR_FIELDS`
  unfoldable pub safe_error_fields : List (Text × (Item → Item))
  safe_error_fields =
      (codes "platform", (λ v. v))
      ∷ (codes "state", (λ v. v))
      ∷ (codes "ok", as_bool)
      ∷ (codes "retry_safe", as_bool)
      ∷ (codes "mark_spent", as_bool)
      ∷ (codes "drop_id", as_safe_id)
      ∷ (codes "note", as_note)
      ∷ []

  -- The body of the loop over them, and the loop.
  abbrev pub set_field : Text → (Item → Item) → Option Item → Dict Text Item → Dict Text Item
  set_field key coerce none sanitized = sanitized
  set_field key coerce (some nothing) sanitized = sanitized
  set_field key coerce (some v) sanitized = Dict.insert key (coerce v) sanitized

  unfoldable pub add_field : Text → (Item → Item) → Dict Text Item → Dict Text Item → Dict Text Item
  add_field key coerce result sanitized = set_field key coerce (Dict.lookup key result) sanitized

  unfoldable pub add_fields :
      List (Text × (Item → Item)) → Dict Text Item → Dict Text Item → Dict Text Item
  unfolding add_field
  add_fields [] result sanitized = sanitized
  add_fields ((key, coerce) ∷ fields) result sanitized =
      add_fields fields result (add_field key coerce result sanitized)

  -- `safe_detail`
  unfoldable pub safe_detail : Text → Text
  unfolding safe_reasons
  safe_detail code = elim (Dict.lookup code safe_reasons) [
    | none ↦ default_reason
    | some reason ↦ reason
  ]

  -- A detail of the package's own.
  abbrev pub set_detail : Option Item → Dict Text Item → Dict Text Item
  set_detail none sanitized = sanitized
  set_detail (some detail) sanitized =
      if is_true detail
      then Dict.insert (codes "detail") (text (shown detail)) sanitized
      else sanitized

  abbrev pub coded : Text → Dict Text Item
  coded code = (codes "error", text code) ∷ []

  -- The code and its detail.
  unfoldable pub with_detail : Text → Dict Text Item → Dict Text Item
  unfolding safe_detail local_detail_errors
  with_detail code result =
      if contains local_detail_errors code
      then set_detail (Dict.lookup (codes "detail") result) (coded code)
      else Dict.insert (codes "detail") (text (safe_detail code)) (coded code)

  abbrev pub rebuilt : Option Item → Dict Text Item → ToolResult
  rebuilt none result = mapping result
  rebuilt (some error) result =
      if is_true error
      then mapping (add_fields safe_error_fields result (with_detail (shown error) result))
      else mapping result

  -- `sanitize_tool_result`
  unfoldable pub sanitize_tool_result : ToolResult → ToolResult
  unfolding with_detail add_fields safe_error_fields
  sanitize_tool_result (plain v) = plain v
  sanitize_tool_result (mapping result) = rebuilt (Dict.lookup (codes "error") result) result
