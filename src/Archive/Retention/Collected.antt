-- ===== src/Archive/Retention/Collected.antt =====
-- What the loop of applyBinlogGC collects: the files to delete and their keys.
use cnmsql.Base.{
  ℕ, ◌≡◌, refl, ◌∙◌, Bool, true, false, not, ◌&&◌, ◌||◌, List, [], ◌∷◌, ◌++◌, Text, text_eq,
  text_Eq, text_eq_iff, lookup, insert, lookup-insert, any, any-append, ltb, arith, Bool-cases, inl,
  inr,
}
use cnmsql.Archive.Retention.{BinlogEntry, Deleted, is_kept_binlog, or_none, collect_one, collect}
use cnmsql.Failover.{has}

-- The file of the server is among the deleted ones.
abbrev pub is_deleted : Deleted → Text → Text → Bool
is_deleted deleted uuid name = has name (or_none (lookup uuid deleted))

-- The file's last event is before the horizon, at a known time.
abbrev pub is_past : ℕ → BinlogEntry → Bool
is_past horizon b = ltb 0 b.meta.last_event_time && ltb b.meta.last_event_time horizon

kept_past :
    (horizon : ℕ) (b : BinlogEntry) (kept : Bool)
    → is_kept_binlog horizon b ≡ kept
    → is_past horizon b ≡ not kept
kept_past horizon b true h = ground arith
kept_past horizon b false h = ground arith

-- Some archived file of the server has the name and ends before the horizon.
abbrev pub ends_before : ℕ → List BinlogEntry → Text → Text → Bool
ends_before horizon binlogs uuid name =
    any
      (λ b. text_eq b.meta.server_uuid uuid && text_eq name b.meta.binlog_name && is_past horizon b)
      binlogs

add_name :
    (u uuid name n : Text) (deleted : Deleted)
    → is_deleted (insert u (or_none (lookup u deleted) ++ n ∷ []) deleted) uuid name
      ≡ (is_deleted deleted uuid name || (text_eq u uuid && text_eq name n))
add_name u uuid name n deleted =
    rw (lookup-insert u uuid (or_none (lookup u deleted) ++ n ∷ []) deleted)
      (elim (Bool-cases (text_eq u uuid)) [
        | inl g ↦
            rw
              (
                g,
                (text_eq_iff u uuid).0 g,
                any-append (text_eq name) (or_none (lookup uuid deleted)) (n ∷ []),
              )
              (ground arith)
        | inr g ↦ rw g (ground arith)
      ])

collect_one-is_deleted :
    (horizon : ℕ) (b : BinlogEntry) (found : List Text × Deleted) (uuid name : Text)
    → is_deleted (collect_one horizon b found).1 uuid name ≡ (
        is_deleted found.1 uuid name
        || (text_eq b.meta.server_uuid uuid
            && text_eq name b.meta.binlog_name
            && is_past horizon b))
collect_one-is_deleted horizon b found uuid name = elim (Bool-cases (is_kept_binlog horizon b)) [
  | inl k ↦ rw (k, kept_past horizon b true k) (ground arith)
  | inr k ↦
      rw
        (
          k,
          kept_past horizon b false k,
          add_name b.meta.server_uuid uuid name b.meta.binlog_name found.1,
        )
        (ground arith)
]

pub collect-is_deleted :
    (horizon : ℕ) (binlogs : List BinlogEntry) (found : List Text × Deleted) (uuid name : Text)
    → is_deleted (collect horizon binlogs found).1 uuid name
      ≡ (is_deleted found.1 uuid name || ends_before horizon binlogs uuid name)
unfolding collect
collect-is_deleted horizon [] found uuid name = ground arith
collect-is_deleted horizon (b ∷ binlogs) found uuid name =
    collect-is_deleted horizon binlogs (collect_one horizon b found) uuid name
    ∙ rw (collect_one-is_deleted horizon b found uuid name) (ground arith)

-- The key belongs to a file, or its manifest, that ends before the horizon.
abbrev pub keys_before : ℕ → List BinlogEntry → Text → Bool
keys_before horizon binlogs key =
    any
      (λ b. (text_eq key b.keys.binlog_key || text_eq key b.keys.manifest_key) && is_past horizon b)
      binlogs

collect_one-keys :
    (horizon : ℕ) (b : BinlogEntry) (found : List Text × Deleted) (key : Text)
    → has key (collect_one horizon b found).0 ≡ (
        has key found.0
        || ((text_eq key b.keys.binlog_key || text_eq key b.keys.manifest_key)
            && is_past horizon b))
collect_one-keys horizon b found key = elim (Bool-cases (is_kept_binlog horizon b)) [
  | inl k ↦ rw (k, kept_past horizon b true k) (ground arith)
  | inr k ↦
      rw
        (
          k,
          kept_past horizon b false k,
          any-append (text_eq key) found.0 (b.keys.binlog_key ∷ b.keys.manifest_key ∷ []),
        )
        (ground arith)
]

pub collect-keys :
    (horizon : ℕ) (binlogs : List BinlogEntry) (found : List Text × Deleted) (key : Text)
    → has key (collect horizon binlogs found).0
      ≡ (has key found.0 || keys_before horizon binlogs key)
unfolding collect
collect-keys horizon [] found key = ground arith
collect-keys horizon (b ∷ binlogs) found key =
    collect-keys horizon binlogs (collect_one horizon b found) key
    ∙ rw (collect_one-keys horizon b found key) (ground arith)

nothing_past : (b : BinlogEntry) (m : Bool) → (m && is_past 0 b) ≡ false
nothing_past b m = ground arith

-- Nothing ends before the time 0.
pub ends_before-zero :
    (binlogs : List BinlogEntry) (uuid name : Text) → ends_before 0 binlogs uuid name ≡ false
ends_before-zero [] uuid name = refl
ends_before-zero (b ∷ binlogs) uuid name = ground (arith, ends_before-zero binlogs uuid name)

pub keys_before-zero : (binlogs : List BinlogEntry) (key : Text) → keys_before 0 binlogs key ≡ false
keys_before-zero [] key = refl
keys_before-zero (b ∷ binlogs) key = ground (arith, keys_before-zero binlogs key)

pub empty-is_deleted : (uuid name : Text) → is_deleted [] uuid name ≡ false
unfolding lookup
empty-is_deleted uuid name = refl
