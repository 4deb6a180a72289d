-- ===== src/Request/Filters.antt =====
-- phl_module_filter_run() of phl_module.c: the filter modules of one phase, resumed where they
-- stopped.
pub mod Resume
use phorklift.Prelude.{ℕ, suc, ◌+◌, ◌≡◌, Bool, true, false, Option, none, some, List, [], ◌∷◌, drop}
use phorklift.Request.State.{Ret, ok, error, again, brk, status, Indexes, Request}

-- The three phases that share `filter_indexs`.
pub data Phase : Type 0 where
  process_headers process_body response_headers : Phase

abbrev pub index : Phase → Request → ℕ
index process_headers r = r.filter_indexs.process_headers
index process_body r = r.filter_indexs.process_body
index response_headers r = r.filter_indexs.response_headers

-- `r->filter_indexs[index]++`
abbrev pub bumped : Phase → Indexes → Indexes
bumped process_headers i = record i { process_headers = suc i.process_headers }
bumped process_body i = record i { process_body = suc i.process_body }
bumped response_headers i = record i { response_headers = suc i.response_headers }

abbrev pub bump : Phase → Request → Request
bump ph r = record r { filter_indexs = bumped ph r.filter_indexs }

-- A filter module: its index, and its callback for the phase.
pub record Filter : Type 0 where
  pub id : ℕ
  pub call : Request → Ret × Request

-- What follows a callback: the rest of the loop, or the return, which notes the module of a status
-- code.
abbrev pub continue_with : ℕ → Ret × Request → (Request → Ret × Request) → Ret × Request
continue_with id (ok, r) k = k r
continue_with id (status code, r) k = (status code, record r { filter_terminal = some id })
continue_with id (ret, r) k = (ret, r)

module _ (ph : Phase) where
  -- The `while` loop, over the modules from the current index on. A callback that returns PHL_OK
  -- leaves the index alone.
  unfoldable pub run_from : List Filter → Request → Ret × Request
  run_from [] r = (ok, r)
  run_from (m ∷ ms) r = continue_with m.id (m.call r) (λ r'. run_from ms (bump ph r'))

  -- phl_module_filter_run()
  unfoldable pub filter_run : List Filter → Request → Ret × Request
  filter_run modules r = run_from (drop (index ph r) modules) r
