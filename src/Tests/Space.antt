-- ===== src/Tests/Space.antt =====
-- The theorems on the pages of a new process, on a state with eleven free pages.
use testcode.Base.{
  ℕ, ◌+◌, ◌%◌, ◌<◌, ◌≡◌, refl, ap, ◌∙◌, some, none, true, List, [], ◌∷◌, arith, ◌==◌, ◌&&◌, leb,
  ltb, if◌then◌else◌,
}
use mathlib.Core.Bool.{false≢true}
use testcode.Machine.{Kernel}
use testcode.Machine.Returns.{Returns}
use testcode.Machine.Word.{pgsize}
use testcode.Pmm.FreeList.{IsPage}
use testcode.Process.Built.{Built, alloc_space-Built}
use testcode.Process.Create.{map_segments, alloc_space}
use testcode.Process.Segments.{map_segments-Segments}
use testcode.Process.Space.{IsRamPage, CanBuild, Segments}
use testcode.Tests.Demo.{demo, image}
use testcode.Vmm.{px}
use testcode.Vmm.Space.{Space}
use testcode.Vmm.Tables.{Role, place, slot, px-lt}

abbrev root_page : ℕ
root_page = 0x80008000

-- The links of the free list; all other words are 0.
abbrev links : ℕ → ℕ
links a = if a % 4096 == 0 && (leb 0x80010000 a && ltb a 0x8001a000) then a + 4096 else 0

abbrev roomy : Kernel
roomy = record demo {
  mem = links;
  procs = λ i. record (demo.procs i) {
    pagetable = root_page;
    trapframe = 0x80009000;
    mapped_info = 0x8000a000;
  };
}

abbrev only_root : Role
only_root p = if p == root_page then some (place root_page 2 0) else none

abbrev last_pages : List ℕ
last_pages = 0x80015000 ∷ 0x80016000 ∷ 0x80017000 ∷ 0x80018000 ∷ 0x80019000 ∷ 0x8001a000 ∷ []

abbrev all_pages : List ℕ
all_pages = 0x80010000 ∷ 0x80011000 ∷ 0x80012000 ∷ 0x80013000 ∷ 0x80014000 ∷ last_pages

IsPage-in_range :
    (p : ℕ) → (p % pgsize == 0 && leb 0x80010000 p && ltb p 0x80020000) ≡ true → IsPage roomy p
IsPage-in_range p e = ground (arith, e)

root_word : (i : ℕ) → i < 512 → links (slot root_page i) ≡ 0
root_word i h = ground arith

roomy-Space : Space roomy only_root all_pages
roomy-Space = record {
  free = record {
    from_dram = omega arith;
    to_top = omega arith;
    chain = (
      refl,
      (refl, (refl, (refl, (refl, (refl, (refl, (refl, (refl, (refl, (refl, refl)))))))))),
    );
    distinct =
        (refl, (refl, (refl, (refl, (refl, (refl, (refl, (refl, (refl, (refl, (refl, tt)))))))))));
    pages = (
      IsPage-in_range _ refl,
      (
        IsPage-in_range _ refl,
        (
          IsPage-in_range _ refl,
          (
            IsPage-in_range _ refl,
            (
              IsPage-in_range _ refl,
              (
                IsPage-in_range _ refl,
                (
                  IsPage-in_range _ refl,
                  (
                    IsPage-in_range _ refl,
                    (
                      IsPage-in_range _ refl,
                      (IsPage-in_range _ refl, (IsPage-in_range _ refl, tt)),
                    ),
                  ),
                ),
              ),
            ),
          ),
        ),
      ),
    );
  };
  tables = record {
    aligned = λ p x at. ground (arith, at);
    low = λ p x at. ground (arith, at);
    high = λ p x at. ground (arith, at);
    child = λ p r l v i at h valid.
        let root : p ≡ root_page = ground (arith, at) in
        let zero_word : links (slot p i) ≡ 0 = ap (λ q. links (slot q i)) root ∙ root_word i h in
        absurd (false≢true (rw zero_word at valid));
  };
  apart = λ p i. ground (arith, i);
}

IsRamPage-in_ram :
    (p : ℕ) → (p % pgsize == 0 && leb 0x80000000 p && ltb p 0x80020000) ≡ true → IsRamPage p
IsRamPage-in_ram p e = record {
  aligned = ground (arith, e);
  low = ground (arith, e);
  high = ground (arith, e);
}

roomy-CanBuild : CanBuild image 0 0x8000b000 roomy only_root all_pages
roomy-CanBuild = record {
  space = roomy-Space;
  root = refl;
  unmapped = λ va h. rw (root_word (px 2 va) (px-lt 2 va)) refl;
  info = IsRamPage-in_ram _ refl;
  outside = (refl, refl);
  trapframe = IsRamPage-in_ram _ refl;
  vector = IsRamPage-in_ram _ refl;
  apart = omega arith;
  stack = IsRamPage-in_ram _ refl;
  enough = omega arith;
}

map_segments-Segments_example :
    Returns
      (λ _. Segments image 0 0x8000b000 roomy only_root all_pages)
      (map_segments image 0 0x8000b000 roomy)
map_segments-Segments_example = map_segments-Segments roomy-CanBuild

alloc_space-Built_example :
    Returns
      (λ _.
        Built image roomy only_root last_pages 0x80010000 0x80011000 0x80012000 0x80013000
          0x80014000 2)
      (alloc_space image 2 roomy)
alloc_space-Built_example =
    alloc_space-Built 2 roomy-Space (IsRamPage-in_ram _ refl) (omega arith) (omega arith)
