-- ===== src/Machine/Parts.antt =====
-- machine.go and process_read.go: the components and processes of a machine.
pub mod Paging
use tamga_go.Base.{
  ℕ, ℤ, pos, negsuc, Bool, false, Option, none, some, List, [], ◌∷◌, ◌++◌, eqb, length, last?,
  if◌then◌else◌,
}
use tamga_go.Text.{Bytes, codes}
use tamga_go.Text.Decimal.{itoa}
use tamga_go.Json.{Json, Object, object, str}
use tamga_go.Http.{Env, Values, post, get, delete, set_value}
use tamga_go.Http.Monad.{M, bind, pure}
use tamga_go.Client.{Client}
use tamga_go.Client.Decode.{decode_json_api, do_no_content}
use tamga_go.Resource.{Component, Process, Wire}
use tamga_go.Machine.{or_empty, machine_path}
use tamga_go.Machine.Read.{effective_page_limit}

pub record CreateComponentOptions : Type 0 where
  pub metadata : Option Object
  pub machine_id : Bytes
  pub fingerprint : Bytes
  pub name : Bytes

pub record CreateProcessOptions : Type 0 where
  pub metadata : Option Object
  pub machine_id : Bytes
  pub pid : Bytes

pub record ListOptions : Type 0 where
  pub after : Option Bytes
  pub limit : ℤ

-- ComponentPage and ProcessPage
pub record Page (A : Type 0) : Type 0 where
  pub next_cursor : Option Bytes
  pub items : List A

abbrev is_length : ℕ → ℤ → Bool
is_length n (pos m) = eqb n m
is_length n (negsuc m) = false

abbrev ends_at : {A : Type 0} → (A → Bytes) → List A → Option A → Option (Page A)
ends_at id items none = none
ends_at id items (some x) = some (record { next_cursor = some (id x); items = items })

-- `if len(items) == limit { last := items[len(items)-1].ID … }`; `none` is an index out of range.
unfoldable pub paged : {A : Type 0} → (A → Bytes) → ℤ → List A → Option (Page A)
paged id limit items =
    if is_length (length items) limit
    then ends_at id items (last? items)
    else some (record { next_cursor = none; items = items })

abbrev with_cursor : Option Bytes → Values → Values
with_cursor none q = q
with_cursor (some cursor) q = set_value (codes "page[after]") cursor q

abbrev pub page_query : ListOptions → Values
page_query opts =
    with_cursor opts.after (set_value (codes "limit") (itoa (effective_page_limit opts.limit)) [])

module _ (env : Env) (wire : Wire) (c : Client) where
  open env use {encode_query, path_escape}

  -- CreateComponent
  unfoldable pub create_component : CreateComponentOptions → M Component
  unfolding decode_json_api
  create_component o = decode_json_api env wire.component c post (codes "/components") (
      some (
        object (
          (codes "machine_id", str o.machine_id)
          ∷ (codes "fingerprint", str o.fingerprint)
          ∷ (codes "name", str o.name)
          ∷ (codes "metadata", object (or_empty o.metadata))
          ∷ [])))

  -- CreateProcess
  unfoldable pub create_process : CreateProcessOptions → M Process
  unfolding decode_json_api
  create_process o = decode_json_api env wire.process c post (codes "/processes") (
      some (
        object (
          (codes "machine_id", str o.machine_id)
          ∷ (codes "pid", str o.pid)
          ∷ (codes "metadata", object (or_empty o.metadata))
          ∷ [])))

  abbrev process_path : Bytes → Bytes → Bytes
  process_path process_id tail = codes "/processes/" ++ (path_escape process_id ++ tail)

  -- PingProcess
  unfoldable pub ping_process : Bytes → M Process
  unfolding decode_json_api
  ping_process process_id =
      decode_json_api env wire.process c post (process_path process_id (codes "/actions/ping")) none

  -- DeleteProcess
  unfoldable pub delete_process : Bytes → M (Unit {0})
  unfolding do_no_content
  delete_process process_id = do_no_content env c delete (process_path process_id [])

  -- ListComponents; `ok none` is a panic.
  unfoldable pub list_components : Bytes → ListOptions → M (Option (Page Component))
  unfolding decode_json_api paged effective_page_limit
  list_components machine_id opts h =
      bind
        (decode_json_api env wire.components c get
          (machine_path env wire c machine_id
            (codes "/components?" ++ encode_query (page_query opts)))
          none h)
        (λ items. pure (paged (λ x. x.id) (effective_page_limit opts.limit) items))

  -- ListMachineProcesses; `ok none` is a panic.
  unfoldable pub list_machine_processes : Bytes → ListOptions → M (Option (Page Process))
  unfolding decode_json_api paged effective_page_limit
  list_machine_processes machine_id opts h =
      bind
        (decode_json_api env wire.processes c get
          (machine_path env wire c machine_id
            (codes "/processes?" ++ encode_query (page_query opts)))
          none h)
        (λ items. pure (paged (λ x. x.id) (effective_page_limit opts.limit) items))
