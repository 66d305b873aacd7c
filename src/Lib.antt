-- ===== src/Lib.antt =====
-- liblink is a dynamic linker for static objects and archives: it loads ELF objects into memory,
-- enters their symbols into one table, and relocates their code for the process it runs in. This
-- library models its core. What is known of the model stands under Results.
--
-- The parts, and the files that model them:
-- - Types.h (Types.antt): the structures that all parts share. A `next` chain is a list. The symbols
--   of all objects stand in one store, and the tables hold pointers into it.
-- - elf/compat.h (Compat.antt, Compat/Arm64, Compat/Arm): the relocation types and their numbers.
-- - elf/target.h (Target.antt): what the shared code calls by macro, as a record that each
--   architecture fills (`arm64`, `arm`).
-- - BinaryTree.c (BinaryTree.antt): the search tree of the symbol table. Hash.c (Hash.antt): its keys.
-- - Linker.c (Linker.antt): the table of global symbols, and its search, which falls back on `dlsym`.
--   Linker/Refine states what its users rely on, as a map from hashes to addresses.
-- - elf/plt.c (Plt.antt), elf/plt/arm64.c (Plt/Arm64), elf/plt/arm.c (Plt/Arm): the stubs that carry
--   branches out of range. Plt/Trampoline states what the shared part relies on of an architecture.
-- - elf/reloc/util.c (Reloc/Util.antt), elf/reloc/arm64.c (Reloc/Arm64.antt), elf/reloc/arm.c
--   (Reloc/Arm.antt): the relocations, which call the stubs for a branch and then patch the code.
--   `relocate_one` is the body of the loops; Reloc/Arm64/Object and Reloc/Arm/Object are the loops over
--   the tables of an object.
-- - elf/got.c (Got.antt): the slots of the symbols of an object, which the relocations refer to.
-- - Elf.c (Elf.antt): Elf/Init reads the tables of an object from its image (`mkOc`, `ocInit`),
--   Elf/Sections gives its sections memory (`load_sections`), Elf/Symbols enters its symbols
--   (`get_names`), Elf/Protect sets the protection of its memory, and Elf/Process puts these together
--   with the slots and the relocations (`processObject`, `loadObject`, `loadArchive`, `resolveObject`).
--   Elf/Format holds the layouts of <elf.h>, Elf/Platform what an architecture chooses, with
--   elf/reloc.c.
-- - Ar.c (Ar.antt): the objects of an archive, read from the bytes of its file. Ar/Stdio models
--   `fread` and `fseek`; the clauses of the loop are definitions of their own (`read_sym_tab`,
--   `read_name_tab`, `member_name`, `read_object`).
-- - debug.c (Debug.antt): the searches for what lies at an address, and the text that names an object.
-- Names are those of the source in snake case: `numberOfStubsForSection` is
-- `number_of_stubs_for_section`. The clauses of a long `switch` that have code of their own are
-- definitions of their own (`encode_adrp`, `branch_addend`). Base.antt holds the shared helpers, Tests
-- the inputs at which the theorems are applied.
--
-- How the code is modelled:
-- - Memory (Memory.antt) is a total function from addresses to bytes, little endian: every address
--   that the code touches is mapped. Functions that write take it and return the new one.
-- - Machine integers are natural numbers below their range, with the wrap-around written out; a
--   signed one is its bit pattern. Plain `char` is unsigned, as it is on ARM.
-- - A function that can stop the process returns an `Outcome`: a failed `assert` (assertions are
--   enabled), an `abort`, or a step that C leaves undefined. The `bool` that the code returns is
--   EXIT_SUCCESS = false or EXIT_FAILURE = true.
-- - Memory allocation succeeds. `dlsym`, `mmap`, `mprotect`, the addresses that `calloc` gives to the
--   members of an archive, and the bytes of the files are parameters; `mmap` and `calloc` take the
--   number of the call, and `mmap` may fail. Thumb mode is off, as it is in the code.
-- - `c_string` reads at most `limit` bytes of a name, where `limit` is a bound on the length of names.
--   `read_loop` takes fuel, one for each round. A round reads at least a byte or ends the loop, but for
--   a negative size: fuel for each byte of the file and two more rounds is chosen. `bits` is the width
--   of `long` and `size_t`.
-- - The processors (Machine/Arm64, Machine/Arm) are models of the few instructions that the code
--   writes and patches, from the architecture manuals; they decode from memory. The theorems about
--   stubs and branches run them. The number of steps that a run takes is given in each theorem, so
--   that no fuel is left open.
-- - The other loops run over the lists that stand for the chains and tables, so they end.
--
-- Not modelled: the log (elf/luts.c, the printing of debug.c, `debug_print_section`), which changes no
-- state, and the driver that runs on a device (Tests.c).
pub mod Base
pub mod Memory
pub mod Types
pub mod Compat
pub mod Target
pub mod Machine
pub mod Plt
pub mod Reloc
pub mod BinaryTree
pub mod Hash
pub mod Linker
pub mod Tests
pub mod Got
pub mod Debug
pub mod Elf
pub mod Ar
