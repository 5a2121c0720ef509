-- ===== src/Lib.antt =====
-- A model of the firmware's page allocator, of its readers of GUID partition tables and of flattened
-- device trees, and of its formatted output, with the theorems that make them correct.
--
-- The firmware describes physical memory by a list of EFI memory descriptors. The allocator
-- (src/memory.rs) builds the list from the regions of the device tree and the ranges of the linker
-- script, and every boot step that needs pages changes it through the EFI page services. The regions
-- come from the device tree that the boot environment hands over (src/dtb_read.rs,
-- src/dtb_memory.rs). The table of a disk tells its partitions (src/gpt.rs). All parts print through
-- src/print.rs.
--
-- The files, and the code each is about:
--   * Base: shared names and automation, machine words of 64 bits, outcomes of code that can
--     return an error or panic, lists, and loops over slices.
--   * Memory/Types, Memory/Arith: the types and the page arithmetic of src/memory.rs.
--   * Memory/Monad: methods on `&mut PageAllocator`. A method returns its outcome with the
--     allocator as it left it, also where it returns an error.
--   * Memory/Buffer: `insert_descriptor`, `insert_sorted`, `replace_descriptor` and `coalesce`.
--   * Memory/Find: the four searches; Find/Best, Find/Offers and Find/Highest say what they find.
--   * Memory/Alloc: `replace_range`, carving, `AllocatePages`, `FreePages` and their relatives.
--   * Memory/Build: `from_regions`. The linker script's addresses are a parameter.
--   * Memory/Packed, Memory/Coalesce, Memory/Split, Memory/Exact, Memory/Services: what the
--     methods do to a map. Memory/Map has the abstract view: the type of each address.
--   * Memory/Carve, Memory/Regions, Memory/Insert: carving ranges, the pages of a region, and adding
--     RAM. Build/Maps, Build/Ram, Build/Firmware and Build/Seeded put them together as
--     `from_regions` does.
--   * Memory/Tests: runs on small maps.
--   * Gpt: src/gpt.rs. Gpt/Device is the block device interface of src/virtio.rs, Gpt/Bytes and
--     Gpt/Crc read fields and compute checksums, Gpt/Header and Gpt/Entry read headers and entries,
--     Gpt/Text prints labels and GUIDs, Gpt/Tests has a small disk.
--
--   * Print: src/print.rs. Print/Numbers converts integers in the buffers on the stack, Print/Spec
--     parses what stands between braces and prints one argument, Print/Engine is the loop over the
--     format string. Engine/Pieces describes format strings independently of the loop, as lists of
--     pieces with an ending; Engine/Total is about fuel and ranges.
--   * Dtb: src/dtb_read.rs and src/dtb_memory.rs. Dtb/Bytes reads slices, Dtb/Header is the header in
--     memory, Dtb/Blob opens a blob, Dtb/Structure has the tokens, `node_at_offset` and
--     `for_each_child`, Dtb/Query finds nodes and properties, Dtb/Reserve reads the reserve map, and
--     Dtb/Regions collects the regions. Dtb/Tree has trees and the structure blocks that stand for
--     them; its children, with Regions/Memory, say what the reader makes of such a block. Dtb/Total
--     and Regions/Ends are about blobs of any content.
--   * Dtb/Allocator: `from_fdt` of src/memory.rs, which joins the allocator and the device tree.
--     Its children follow the map through the reservations. What the two scratch slices hold
--     afterwards is not returned. Dtb/Follows, Follows/Nodes and Regions/Static list what a callback is
--     called with, apart from the callback.
--
-- The names are those of the code in snake case: `AllocatePages` is `allocate_pages`,
-- `EFI_MEMORY_DESCRIPTOR` is `EfiMemoryDescriptor`. The state of a `PageAllocator` is its buffer
-- and the count of descriptors in use. Numbers are natural numbers; where the code may leave 64
-- bits, the model wraps as the release build does or uses the checked operation that the code
-- uses. `usize` has 64 bits on the target.
--
-- The `while` loops of `coalesce` and of the two carving methods run on fuel: the number of
-- descriptors, and of places in the buffer, plus one. Each round of `coalesce` advances the index
-- or removes a descriptor, and each round of carving passes a descriptor or uses up a place. The
-- loop over the entry array has fuel for each byte. The loop over a format string has a round for
-- each byte and one more, the loops over a structure block a round for each byte and one more
-- (each takes a token of four bytes), and the loop over the digits of a number one for each place of
-- the buffer and one more.
--
-- A block device is a parameter: what a read returns depends on the sector and the length, and
-- where a theorem needs it, a read that succeeds fills the buffer that it gets. A Rust slice of
-- bytes is a list; the texts are lists of ASCII codes.
--
-- The output of the printer is the sequence of bytes that it hands to `puts`, whose result it
-- ignores. The memory behind the pointer to a device tree is a function from offsets to bytes. A
-- callback is a function on a state that it returns, with whether to go on.
--
-- Not modelled: the editor of device trees, the filesystems, the VirtIO devices and the boot
-- request; the entry point, the trap vector and the calls of OpenSBI, which are assembly; reports and
-- test programs.
pub mod Base
pub mod Memory
pub mod Gpt
pub mod Print
pub mod Dtb
