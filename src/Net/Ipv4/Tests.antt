-- ===== src/Net/Ipv4/Tests.antt =====
-- A header of kernel/net/ipv4.cpp.
use mesa_os.Prelude.{◌≡◌, arith}
use mesa_os.Net.Checksum.{calculate_checksum}
use mesa_os.Net.Ipv4.{at_boot, header_bytes}
use mesa_os.Net.Ipv4.Header.{calculate_checksum-header_bytes}

calculate_checksum-header_bytes_example :
    calculate_checksum (header_bytes at_boot 0x0100000a 17 300) ≡ 0
calculate_checksum-header_bytes_example =
    calculate_checksum-header_bytes at_boot 0x0100000a 17 300 (omega arith)
