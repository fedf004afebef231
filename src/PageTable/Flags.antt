-- ===== src/PageTable/Flags.antt =====
-- kernel/src/include/arch/x86_64/table.hpp and include/mm/table.hpp: the flags of an entry and the
-- flags that callers of `map` pass. The two enumerations agree on the first three.
use ion_os.Base.{ℕ, ◌^◌}

abbrev pub present : ℕ
present = 0x1

abbrev pub read_write : ℕ
read_write = 0x2

abbrev pub user : ℕ
user = 0x4

-- table::page_table_flags::executable
abbrev pub executable : ℕ
executable = 0x8

-- arch_table::arch_page_table_flags::no_executable
abbrev pub no_executable : ℕ
no_executable = 2 ^ 63
