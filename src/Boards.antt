-- ===== src/Boards.antt =====
-- src/include/known_boards.h: the boards that the tracer knows.
pub mod Register
pub mod Zcu104
pub mod Zynq7000
pub mod Wiring
pub mod Wired
pub mod Inputs
use ultrasight.Common.{ℕ, List, [], ◌∷◌, codes}
use ultrasight.Machine.{Fn}
use ultrasight.Boards.Register.{Registry}
use ultrasight.Boards.Zcu104.{do_registration_zcu104}
use ultrasight.Boards.Zynq7000.{do_registration_zynq7000}

-- `struct board`, as far as the table fills it.
pub record KnownBoard : Type 0 where
  pub do_registration : Registry → Fn
  pub n_cpu : ℕ
  pub hardware : List ℕ

-- The entry of zeros that ends the table is the end of the list.
abbrev pub known_boards : List KnownBoard
known_boards =
    (record { do_registration = do_registration_zcu104; n_cpu = 4; hardware = codes "ZCU-104" })
    ∷ (record {
      do_registration = do_registration_zynq7000;
      n_cpu = 2;
      hardware = codes "ZYNQ-7000";
    })
    ∷ []
