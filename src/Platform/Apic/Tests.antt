-- ===== src/Platform/Apic/Tests.antt =====
-- A local controller that counts down by 600000 in 600 ms.
use ada_os.Base.{ℕ, ◌-◌, refl, List, [], ◌==◌, if◌then◌else◌, done, Ends}
use ada_os.Memory.Layout.{Boot}
use ada_os.Platform.IoApic.{Store}
use ada_os.Platform.Apic.{Started, bootstrap_apic}
use ada_os.Platform.Apic.Starting.{IsStarted, bootstrap_apic-IsStarted}

abbrev boot : Boot
boot = record {
  physical_base = 0x200000;
  virtual_base = 0xffff_ffff_8000_0000;
  hhdm_offset = 0x8000_0000_0000;
  executable_size = 0x50000;
}

abbrev unstarted : Started
unstarted = record {
  stores = [];
  outs = [];
  state = λ _. 1;
  pages = record {
    page_bitmap = λ _. 0;
    page_mappings = λ _. record { offset = 0x100000; page_start_index = 0; page_end_index = 4096 };
    last_used_mapping = 0;
    last_page_used = 1;
    free_pages = 0x100001;
    used_pages = 0;
    chunk_count = 1;
    memory = λ _. 0;
  };
}

abbrev read : List Store → ℕ → ℕ
read stores address =
    if address == 0x8000_fee0_0030
    then 0x14
    else if address == 0x8000_fee0_00f0
    then 0x1f0
    else 0xffff_ffff - 600000

bootstrap_apic-IsStarted_example :
    Ends
      (IsStarted read 0x8000_fee0_0000 0xfee0_0900 unstarted)
      (bootstrap_apic read (λ _. 255) (done 3) boot 0x8000_0000_1000 0xfee0_0900 unstarted)
bootstrap_apic-IsStarted_example =
    bootstrap_apic-IsStarted read (λ _. 255) {sleep_600 = done 3} {reads = 3} refl boot
      0x8000_0000_1000 0xfee0_0900 unstarted
