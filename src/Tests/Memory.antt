-- ===== src/Tests/Memory.antt =====
-- The theorems on pages and page tables, on the small state.
use testcode.Base.{ℕ, ◌+◌, ◌*◌, ◌/◌, ◌≤◌, ◌<◌, ◌≡◌, refl, true, false, [], ◌∷◌, length, arith}
use testcode.Base.Bits.{has_bit}
use testcode.Machine.{ok}
use testcode.Machine.Returns.{Returns}
use testcode.Machine.Word.{round_down}
use testcode.Pmm.{free_page, pmm_init}
use testcode.Pmm.FreeList.{IsFree, taken, released, free_page-IsFree}
use testcode.Pmm.Init.{Booted, pmm_init-Booted}
use testcode.Syscall.{sys_user_allocate_page, sys_user_free_page, advance_ufree}
use testcode.Syscall.Page.{
  PageRemoved, sys_user_allocate_page-PageAdded, sys_user_free_page-PageRemoved,
}
use testcode.Tests.Demo.{
  demo, demo_role, directory, user_frame, image, demo_pages, demo_pages-IsFree, demo-Tables,
  demo-Space, memory,
}
use testcode.Trap.{handle_user_page_fault, cause_store_page_fault}
use testcode.Trap.PageFault.{user_page, handle_user_page_fault-PageAdded}
use testcode.Vmm.{page_walk, user_va_to_pa, user_vm_map, user_vm_unmap}
use testcode.Vmm.Lookup.{user_va_to_pa-translate}
use testcode.Vmm.Map.{Mapped, CanMap, page_span, user_vm_map-Mapped}
use testcode.Vmm.NewPage.{PageAdded}
use testcode.Vmm.Tables.{leaf}
use testcode.Vmm.Unmap.{Unmapped, user_vm_unmap-Unmapped}
use testcode.Vmm.Walk.{Walked, page_walk-Walked}

two_pages : CanMap demo demo_pages directory 0x5000 8192 0x80018000
two_pages = record {
  some_bytes = omega arith;
  below = omega arith;
  physical = omega arith;
  unused = λ va' lo hi. unmapped va' (omega arith) (omega arith);
  enough = omega arith;
}
  where
    unmapped :
        (va' : ℕ)
        → 5 ≤ va' / 4096
        → va' / 4096 < 7
        → has_bit (leaf memory 2 directory va') 0 ≡ false
    unmapped va' lo hi = ground arith

user_vm_map-Mapped_example :
    Returns
      (λ _.
        Mapped demo demo_role demo_pages directory
          (round_down 0x5000)
          (page_span 0x5000 8192)
          0x80018000
          0xd6)
      (user_vm_map directory 0x5000 8192 0x80018000 0xd6 demo)
user_vm_map-Mapped_example =
    user_vm_map-Mapped directory 0x5000 8192 0x80018000 0xd6 demo-Space refl two_pages

user_vm_unmap-Unmapped_example :
    Returns
      (λ _. Unmapped true demo demo_role demo_pages directory 0x1000 ((0x80014 * 1024 + 0xd7) ∷ []))
      (user_vm_unmap directory 0x1000 (length ((0x80014 * 1024 + 0xd7) ∷ []) * 4096) true demo)
user_vm_unmap-Unmapped_example =
    user_vm_unmap-Unmapped true directory 0x1000 ((0x80014 * 1024 + 0xd7) ∷ []) demo demo_role
      demo_pages demo-Space refl refl (omega arith)
      (refl, (refl, omega arith), ((refl, omega arith, omega arith), refl, refl), tt)

page_walk-Walked_example :
    Returns
      (Walked demo demo_role demo_pages 2 directory 0x400000)
      (page_walk directory 0x400000 true demo)
page_walk-Walked_example =
    page_walk-Walked directory 0x400000 demo demo_role demo_pages demo-Space refl (omega arith)

handle_user_page_fault-PageAdded_example :
    Returns
      (λ _.
        PageAdded
          (taken 0x80010000 demo)
          demo_role
          (0x80011000 ∷ 0x80012000 ∷ 0x80013000 ∷ [])
          directory
          0x7fffe008
          0x80010000
          user_page)
      (handle_user_page_fault cause_store_page_fault 0x7fffe008 demo)
handle_user_page_fault-PageAdded_example =
    handle_user_page_fault-PageAdded 0 0x80010000 0x7fffe008 refl demo-Space refl (omega arith) refl
      (omega arith)

sys_user_allocate_page-PageAdded_example :
    Returns
      (λ va s'.
        (va ≡ 0x400000)
        × PageAdded
            (advance_ufree (taken 0x80010000 demo))
            demo_role
            (0x80011000 ∷ 0x80012000 ∷ 0x80013000 ∷ [])
            directory
            0x400000
            0x80010000
            user_page
            s')
      (sys_user_allocate_page demo)
sys_user_allocate_page-PageAdded_example =
    sys_user_allocate_page-PageAdded 0 0x80010000 refl demo-Space refl (omega arith) refl refl
      (omega arith)

sys_user_free_page-PageRemoved_example :
    Returns
      (λ ret s'. (ret ≡ 0) × PageRemoved demo demo_role demo_pages directory 0x1000 user_frame s')
      (sys_user_free_page 0x1000 demo)
sys_user_free_page-PageRemoved_example =
    sys_user_free_page-PageRemoved 0 0x1000 refl demo-Space refl refl (omega arith)
      (refl, omega arith) ((refl, omega arith, omega arith), refl, refl)

user_va_to_pa-translate_example : user_va_to_pa directory 0x1234 demo ≡ ok (user_frame + 0x234) demo
user_va_to_pa-translate_example =
    user_va_to_pa-translate directory 0x1234 demo-Tables refl (omega arith)

free_page-IsFree_example :
    (free_page user_frame demo ≡ ok tt (released user_frame demo))
    × IsFree (released user_frame demo) (user_frame ∷ demo_pages)
free_page-IsFree_example =
    free_page-IsFree user_frame demo_pages-IsFree (refl, omega arith, omega arith) refl

pmm_init-Booted_example : Returns (λ _. Booted image demo) (pmm_init image demo)
pmm_init-Booted_example = pmm_init-Booted image demo (omega arith, omega arith)
