-- ===== src/References.antt =====
-- common/luaobject.c: how often C code refers to a Lua object. A store table keeps the referenced
-- objects alive, and its metatable counts the references of each; a missing count reads as 0.
pub mod Counted
use somewm.Common.{
  ℕ, suc, ◌+◌, ◌-◌, ◌%◌, Bool, true, false, Option, none, some, ◌==◌, leb, if◌then◌else◌, update,
}
use somewm.Common.Int.{int_word, int_end}

pub record Store : Type 0 where
  pub table : ℕ → Bool
  pub count : ℕ → ℕ

-- An object that has no pointer is not referenced.
pub object_incref : Option ℕ → Store → Option ℕ × Store
object_incref none s = (none, s)
object_incref (some p) s =
    let count = (s.count p + 1) % int_word in
    (some p, record { table = update s.table p true; count = update s.count p count })

-- Without a reference there is a message and nothing else.
pub object_decref : Option ℕ → Store → Store
object_decref none s = s
object_decref (some p) s =
    let count = (s.count p + (int_word - 1)) % int_word in
    if leb int_end count then s else record {
      table = if count == 0 then update s.table p false else s.table;
      count = update s.count p count;
    }
