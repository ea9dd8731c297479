-- ===== src/Net/Host.antt =====
-- A host with an endpoint in use, for the tests.
use ece564_project.Prelude.{◌+◌, true, false, ◌==◌, if◌then◌else◌, []}
use ece564_project.Prelude.Int.{pos}
use ece564_project.Queue.Table.{empty}
use ece564_project.Process.State.{System, pr_free}
use ece564_project.Pool.Buffers.{Pools}
use ece564_project.Net.Packet.{Packet}
use ece564_project.Net.State.{NetState, udp_free, udp_used}
use ece564_project.Net.Ip.{wire_packet}
use ece564_project.Net.ArpCache.{blank_entry}

-- All semaphores are in use, with the count 2.
abbrev pub system : System
system = record {
  proctab = λ k. record {
    prstate = pr_free;
    prprio = pos 0;
    prsem = 0;
    prmsg = 0;
    prhasmsg = false;
    page_addr = 4096;
  };
  semtab = λ k. record { used = true; scount = pos 2; squeue = 100 + k + k };
  queuetab = λ k. record { qkey = pos 0; qnext = empty; qprev = empty };
  currpid = 9;
  readylist = 204;
  sleepq = 206;
  ndefers = 0;
  attempt = false;
  preempt = 10;
  cr3 = 4096;
  nextsem = 0;
}

abbrev pub pools : Pools
pools = record {
  buftab = λ k. record { bpnext = 3000; bpsem = 0; bpsize = 8 };
  nbpools = 1;
  words = λ k. 0;
  sys = system;
  heap = record { free = []; total = 0; minheap = 800; maxheap = 4000 };
}

-- A UDP packet from 10.0.0.2 to 10.0.0.1, from port 7 to port 9, with three bytes of data.
abbrev pub packet : Packet
packet = record {
  net_ethdst = λ i. 1;
  net_ethsrc = λ i. 2;
  net_ethtype = 2048;
  net_ipvh = 69;
  net_iptos = 0;
  net_iplen = 31;
  net_ipid = 5;
  net_ipfrag = 0;
  net_ipttl = 255;
  net_ipproto = 17;
  net_ipcksum = 0;
  net_ipsrc = 167772162;
  net_ipdst = 167772161;
  net_udpsport = 7;
  net_udpdport = 9;
  net_udplen = 11;
  net_udpcksum = 0;
  net_udpdata = λ i. 97 + i;
  net_ictype = 0;
  net_iccode = 0;
  net_iccksum = 0;
  net_icident = 0;
  net_icseq = 0;
  net_icdata = λ i. 0;
}

-- The slot 1 is open for port 9 from any host, and the packet 1004 waits there; the others are free.
-- The buffer 2004 holds the packet as it comes from the wire, and 3004 an ARP request from 10.0.0.2.
abbrev pub net : NetState
net = record {
  udptab = λ k. record {
    udstate = if k == 1 then udp_used else udp_free;
    udremip = 0;
    udremport = 0;
    udlocport = 9;
    udhead = 7;
    udtail = 0;
    udcount = 1;
    udpid = 2;
    udqueue = λ i. 1004;
  };
  icmptab = λ k. record {
    icstate = 0;
    icremip = 0;
    ichead = 0;
    ictail = 0;
    iccount = 0;
    icpid = 0;
    icqueue = λ i. 0;
  };
  ipoqueue = record { iqhead = 0; iqtail = 0; iqsem = 1; iqbuf = λ i. 0 };
  arpcache = λ k. blank_entry;
  arpin = λ k. record {
    arp_ethdst = λ i. 1;
    arp_ethsrc = λ i. 2;
    arp_ethtype = 2054;
    arp_htype = 256;
    arp_ptype = 8;
    arp_hlen = 6;
    arp_plen = 4;
    arp_op = 256;
    arp_sndha = λ i. 40 + i;
    arp_sndpa = 33554442;
    arp_tarha = λ i. 0;
    arp_tarpa = 16777226;
  };
  arpout = [];
  packets = λ k. if k == 2004 then wire_packet packet else packet;
  pools = pools;
  netbufpool = 0;
  network = record {
    ipucast = 167772161;
    ipbcast = 167772415;
    ipmask = 4294967040;
    ipprefix = 167772160;
    iprouter = 167772414;
    ipvalid = true;
    ethucast = λ i. 16 + i;
    ethbcast = λ i. 255;
  };
  ident = 1;
  ident_to = 1;
  ipident = 32767;
  frames = [];
}
