-- ===== src/State/Events/Interface.antt =====
-- What the offset state uses of the `slotmap` and `rocksdb` crates, and the offsets that it is sent.
use logdna_agent_v.Base.{ℕ, ◌≡◌, ◌≢◌, ◌⊎◌, Bool, Option, none, some, List, Result, ok}
use logdna_agent_v.State.SpanVec.{SpanVec}
use logdna_agent_v.State.Codec.{Bytes}

-- The items of an `OffsetMap`.
abbrev pub OffsetMap : Type 0
OffsetMap = List (ℕ × SpanVec)

-- Pending updates by key. An insertion, a removal and `clear` bring in no other values, and what is
-- removed is gone.
pub record SlotMap : Type 1 where
  pub Slots : Type 0
  pub Key : Type 0
  pub new : Slots
  pub insert : OffsetMap → Slots → Key × Slots
  pub get_mut : Key → Slots → Option OffsetMap
  pub remove : Key → Slots → Slots
  pub clear : Slots → Slots
  pub get-new : (k : Key) → get_mut k new ≡ none
  pub get-inserted : (b : OffsetMap) (s : Slots) → get_mut (insert b s).0 (insert b s).1 ≡ some b
  pub get-insert :
      (b c : OffsetMap) (s : Slots) (k : Key)
      → get_mut k (insert b s).1 ≡ some c
      → (c ≡ b) ⊎ (get_mut k s ≡ some c)
  pub get-remove :
      (s : Slots) (j k : Key) (c : OffsetMap)
      → get_mut k (remove j s) ≡ some c
      → get_mut k s ≡ some c
  pub get-removed : (s : Slots) (k : Key) → get_mut k (remove k s) ≡ none
  pub get-clear : (s : Slots) (k : Key) → get_mut k (clear s) ≡ none

-- A database with one column family. `last` is what a batch does last to a key: nothing, a put of a
-- row, or a delete.
pub record Database : Type 1 where
  pub Db : Type 0
  pub Batch : Type 0
  pub Error : Type 0
  pub cf_handle : Db → Bool
  pub row : Db → Bytes → Option Bytes
  pub new_batch : Batch
  pub put_cf : Batch → Bytes → Bytes → Batch
  pub delete_cf : Batch → Bytes → Batch
  pub last : Batch → Bytes → Option (Option Bytes)
  pub write : Db → Batch → Result Error Db
  pub last-new : (k : Bytes) → last new_batch k ≡ none
  pub last-put : (wb : Batch) (k v : Bytes) → last (put_cf wb k v) k ≡ some (some v)
  pub last-put_other : (wb : Batch) (j k v : Bytes) → j ≢ k → last (put_cf wb j v) k ≡ last wb k
  pub last-delete : (wb : Batch) (k : Bytes) → last (delete_cf wb k) k ≡ some none
  pub last-delete_other : (wb : Batch) (j k : Bytes) → j ≢ k → last (delete_cf wb j) k ≡ last wb k
  pub row-untouched :
      (d d' : Db) (wb : Batch) (k : Bytes)
      → write d wb ≡ ok d'
      → last wb k ≡ none
      → row d' k ≡ row d k
  pub row-written :
      (d d' : Db) (wb : Batch) (k : Bytes) (r : Option Bytes)
      → write d wb ≡ ok d'
      → last wb k ≡ some r
      → row d' k ≡ r
