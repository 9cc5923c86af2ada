-- ===== src/ExceptionStorage/Queue.antt =====
-- What the exception storage promises its clients: a queue of at most four records, oldest first,
-- that drops what comes when it is full. Ids are not part of it.
use fs_nasa_cfs_psp.Base.{ℕ, Option, none, some, List, [], ◌∷◌, ◌++◌, length, ltb, if◌then◌else◌}
use fs_nasa_cfs_psp.Status.{Status, success, no_exception_data}

pub record Payload : Type 0 where
  pub task : ℕ
  pub info_size : ℕ
  pub info : List ℕ

unfoldable pub push : List Payload → Payload → List Payload
push q p = if ltb (length q) 4 then q ++ (p ∷ []) else q

unfoldable pub pop : List Payload → Status × Option ℕ × List Payload
pop [] = (no_exception_data, none, [])
pop (p ∷ q) = (success, some p.task, q)

-- The calls of a client and of the signals that come between them. `poll` is a call of
-- `CFE_PSP_Exception_GetSummary` that asks for the task.
pub data Op (Sig : Type 0) : Type 0 where
  raise : Sig → Op Sig
  poll : Op Sig
  clear : Op Sig

-- The replies to the polls: the status, and the thread that raised the exception.
unfoldable pub run :
    {Sig : Type 0} → (Sig → Payload) → List Payload → List (Op Sig) → List (Status × Option ℕ)
run f q [] = []
run f q (raise e ∷ ops) = run f (push q (f e)) ops
run f q (poll ∷ ops) = let (status, task, q') = pop q in (status, task) ∷ run f q' ops
run f q (clear ∷ ops) = run f [] ops
