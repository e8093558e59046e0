-- ===== src/Diagnostics/State.antt =====
-- `DiagnosticOperation` (controlplane/models.py) and the queries that controlplane/services.py makes on
-- its table. Rows stand newest first, the model's ordering.
use django_ops.Common.{
  ℕ, Bool, true, false, ◌&&◌, Option, none, some, List, [], ◌∷◌, String, map, eqb, if◌then◌else◌,
}
use django_ops.Gateway.State.{DiagnosticCheck}

-- `DiagnosticOperation.Status`
pub data Status : Type 0 where
  pending running succeeded failed cancelled offline overloaded disconnected timeout : Status

-- `_TERMINAL`
unfoldable pub is_terminal : Status → Bool
is_terminal succeeded = true
is_terminal failed = true
is_terminal cancelled = true
is_terminal offline = true
is_terminal overloaded = true
is_terminal disconnected = true
is_terminal timeout = true
is_terminal _ = false

-- `_ACTIVE`
unfoldable pub is_active : Status → Bool
is_active pending = true
is_active running = true
is_active _ = false

pub data Summary : Type 0 where
  blank : Summary
  progress : String → String → Summary
  checks : List DiagnosticCheck → Summary

pub record Operation : Type 0 where
  pub pk : ℕ
  pub project_id : ℕ
  pub status : Status
  pub result_summary : Summary
  pub error_code : String

pub record Table : Type 0 where
  pub rows : List Operation
  pub next_pk : ℕ

-- `objects.get(pk=pk)`
unfoldable pub find : ℕ → List Operation → Option Operation
find pk [] = none
find pk (r ∷ rs) = if eqb r.pk pk then some r else find pk rs

-- `objects.filter(pk=pk, <guard>).update(<change>)`
unfoldable pub update_where :
    ℕ → (Status → Bool) → (Operation → Operation) → List Operation → List Operation
update_where pk guard change [] = []
update_where pk guard change (r ∷ rs) =
    (if eqb r.pk pk && guard r.status then change r else r) ∷ update_where pk guard change rs

unfoldable pub has_pk : ℕ → List ℕ → Bool
has_pk pk [] = false
has_pk pk (q ∷ qs) = if eqb q pk then true else has_pk pk qs

-- `objects.filter(pk__in=ids).delete()`
unfoldable pub delete_pks : List ℕ → List Operation → List Operation
delete_pks ids [] = []
delete_pks ids (r ∷ rs) = if has_pk r.pk ids then delete_pks ids rs else r ∷ delete_pks ids rs

abbrev pub pks : List Operation → List ℕ
pks = map (λ r. r.pk)
