-- ===== src/Iic/Tests.antt =====
-- Calls on chicken/device/driver/io/iic_handler.cpp.
use cooboc.Base.{◌≡◌, refl, true, false, List, [], ◌∷◌, ◌++◌}
use cooboc.Base.Int.{pos, negsuc}
use cooboc.Iic.{Answer, write, read, write_byte, read_with, send_reg_addr, select_device}
use cooboc.Iic.Transactions.{
  served, Request, perform, perform_all, start_bus, device_of, seen_by, all_seen_by, wanted_all,
  AllAccepted, write_request, read_request,
}
use cooboc.Iic.Served.{perform_all-served, failed_selection_misdirects}

abbrev answer : Answer
answer = record { accepted = true; written = pos 1; read_count = pos 2; bytes = 254 ∷ 255 ∷ [] }

abbrev lost : Answer
lost = record { accepted = true; written = negsuc 0; read_count = negsuc 0; bytes = [] }

abbrev refused : Answer
refused = record { accepted = false; written = pos 1; read_count = pos 2; bytes = 1 ∷ 2 ∷ [] }

-- The second call fails, and the third finds its device selected, so that no selection is made where
-- one would fail.
abbrev calls : List (Request × Answer)
calls =
    (write_request 0x10 0x4b 1, answer)
    ∷ (read_request 2 0x48 0x84, lost)
    ∷ (read_request 2 0x48 0x84, refused)
    ∷ []

perform_all-served_example :
    served 0 (perform_all start_bus calls).effects
    ≡ (0x10, write (0x4b ∷ 1 ∷ []))
      ∷ (0x48, write (0x84 ∷ []))
      ∷ (0x48, write (0x84 ∷ []))
      ∷ (0x48, read 2)
      ∷ []
unfolding wanted_all AllAccepted perform start_bus device_of write_byte read_with send_reg_addr
    select_device seen_by
perform_all-served_example = perform_all-served calls ((λ h. refl), ((λ h. refl), ((λ h. cc), tt)))

-- The turn sensor at 0x68 is not accepted, and the converter at 0x48 is written to, and read, for it.
failed_selection_misdirects_example :
    served 0
      (perform_all start_bus (
        calls
        ++ ((write_request 0x68 0x14 0xb6, refused)
            ∷ (read_request 1 0x68 3, answer)
            ∷ []))).effects
    ≡ wanted_all calls
      ++ ((0x48, write (0x14 ∷ 0xb6 ∷ [])) ∷ (0x48, write (3 ∷ [])) ∷ (0x48, read 1) ∷ [])
unfolding AllAccepted perform perform_all start_bus all_seen_by device_of write_byte read_with
    send_reg_addr select_device seen_by
failed_selection_misdirects_example =
    failed_selection_misdirects calls (write_request 0x68 0x14 0xb6) refused
      ((read_request 1 0x68 3, answer) ∷ []) ((λ h. refl), ((λ h. refl), ((λ h. cc), tt))) refl refl
      (refl, tt)
