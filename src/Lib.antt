-- ===== src/Lib.antt =====
-- CampusID: the decision cores of an identity broker.
--
-- The broker logs people in through a campus identity provider, keeps a session for each browser,
-- decides what services may learn and do, and provisions accounts downstream. This library models the
-- parts that decide, as they stand in campusid/, over the services that they call.
--
-- - Authz: campusid/authz/engine.py. `matches`, `decide` and `subject_from` are `Rule.matches`,
--   `PolicySet.decide` and `subject_from`; a set of texts is a list read through `contains`.
-- - Policy: campusid/policy/attributes.py and release.py. `evaluate` and `decide` are `evaluate` and
--   `_decide`; the match of a value pattern (`re.fullmatch`) is a parameter. `Policy.Normalize` is
--   campusid/policy/normalize.py, which cleans the values before they are released.
-- - Directory: campusid/directory/escaping.py, on texts that are lists of code points.
-- - Audit: campusid/audit/chain.py, with `AuditLog.verify_chain` and `AuditLog._write` of
--   campusid/audit/log.py. JSON, SHA-256 and the texts of moments are a record of functions. The
--   loop over batches runs on fuel, one turn for each row and one more, and the fuel is enough.
-- - Oidc: campusid/oidc/grants.py (codes, refresh tokens and families) with the errors of
--   campusid/oidc/errors.py, and campusid/oidc/pkce.py. `Oidc.Grants.Lifetimes` has sequences of
--   operations with time passing between them.
-- - Session: campusid/session/store.py, every operation of `SessionStore`.
-- - Lifecycle: campusid/lifecycle/rules.py (`grants_for`, `transition`, `load_rules`) on the document
--   that PyYAML answers, and campusid/lifecycle/retry.py with its world as a state and its
--   delays as the real numbers of the record `Durations`.
-- - Mfa: campusid/mfa/assurance.py, with the two assurance levels of Authz.
-- - Scim: Filter is campusid/scim/filters.py, from the text (`tokenize`, `parse_filter`,
--   `parse_patch_path`) to the evaluator (`matches`, `select_members`). A text is the list of its code
--   points; `str.lower`, the numbers and the classes of spaces and digits are the record `Host`. The
--   tokenizer has fuel for each character, a chain of `and` or `or` for each token and one more. The
--   parser counts `MAX_DEPTH` down, and its tokens are what is left of them. Bulk is
--   campusid/scim/bulk.py (`parse_bulk`, `_ordered` in rounds, one for each operation at most, and
--   the `bulkId:` references) and `BulkRunner` of campusid/scim/bulk_runner.py, over the record
--   `Stores` of the calls that its protocols name. Patch is campusid/scim/patch.py: a dictionary that
--   the source changes in place is answered anew. Patch stands on the filters; the runner takes
--   `from_scim`, `parse_operations` and `apply_patch` with the stores, on JSON of its own.
-- - Shared: tests, lists and sorting over the native numbers, and the Redis interface that Oidc and
--   Session stand on, with a store of functions that meets it; Codec encodes lists as texts for the
--   examples.
--
-- Oidc and Session meet in Redis: they write texts and sets under keys of different prefixes. An
-- operation runs without another between its commands; `SET NX` is atomic. A moment is a number of
-- seconds, and a fresh token or session id is an argument.
--
-- Not modelled: the HTTP routes, the database stores (those of SCIM too), SAML and WebAuthn
-- ceremonies and the LDAP client, which mostly call libraries; the second-factor limiter, CBOR,
-- TOTP and the `RulesStore` that reloads the rules file.
pub mod Shared
pub mod Authz
pub mod Policy
pub mod Directory
pub mod Audit
pub mod Oidc
pub mod Session
pub mod Lifecycle
pub mod Mfa
pub mod Scim
